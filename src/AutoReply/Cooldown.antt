-- ===== src/AutoReply/Cooldown.antt =====
-- `allow` of router.go over any sequence of calls.
use gomsggw.Base.{
  ℕ, ◌&&◌, ◌+◌, ◌*◌, ◌≤◌, Bool, true, List, [], ◌∷◌, Option, none, some, Text, ltb, ◌==◌, ==_iff,
  Eq_Text, ◌≡◌, refl, arith, Bool-cases, inl, inr, if◌then◌else◌,
}
use gomsggw.Base.Map.{lookup, lookup-insert}
use gomsggw.AutoReply.{LastSent, second, allow_key}

-- A call for one key: its time and its cooldown.
pub record Attempt : Type 0 where
  pub key : Text
  pub time : ℕ
  pub cooldown : ℕ

-- The replies allowed in a sequence of calls for one key, with the last one before them: each comes
-- at its cooldown at the earliest after the one before it.
abbrev pub Spaced : Option ℕ → List Attempt → Type 0
Spaced last [] = Unit
Spaced none (a ∷ more) = Spaced (some a.time) more
Spaced (some t) (a ∷ more) = (t + a.cooldown * second ≤ a.time) × Spaced (some a.time) more

-- The calls for a key that are allowed, one after the other.
unfoldable pub allowed_for : Text → LastSent → List Attempt → List Attempt
allowed_for k m [] = []
allowed_for k m (a ∷ more) =
    let rest = allowed_for k (allow_key a.time a.key a.cooldown m).0 more in
    if (allow_key a.time a.key a.cooldown m).1 && a.key == k then a ∷ rest else rest

abbrev pub AllPositive : List Attempt → Type 0
AllPositive [] = Unit
AllPositive (a ∷ more) = (1 ≤ a.cooldown) × AllPositive more

lookup-allow_key :
    (k : Text) (a : Attempt) (m : LastSent)
    → 1 ≤ a.cooldown
    → lookup k (allow_key a.time a.key a.cooldown m).0
      ≡ (if (allow_key a.time a.key a.cooldown m).1 && a.key == k then some a.time else lookup k m)
unfolding allow_key
lookup-allow_key k a m h = ground (arith, lookup-insert a.key k a.time m)

allowed-late :
    (a : Attempt) (m : LastSent) {t : ℕ}
    → 1 ≤ a.cooldown
    → lookup a.key m ≡ some t
    → (allow_key a.time a.key a.cooldown m).1 ≡ true
    → t + a.cooldown * second ≤ a.time
unfolding allow_key
allowed-late a m {t = t} h e ok = elim (Bool-cases (ltb a.time (t + a.cooldown * second))) [
  | inl cooling ↦ absurd (ground (arith, e))
  | inr elapsed ↦ ground arith
]

Spaced-cons :
    (last : Option ℕ) (a : Attempt) (more : List Attempt)
    → ((t : ℕ) → last ≡ some t → t + a.cooldown * second ≤ a.time)
    → Spaced (some a.time) more
    → Spaced last (a ∷ more)
Spaced-cons none a more late h = h
Spaced-cons (some t) a more late h = (late t refl, h)

&&-true : (a b : Bool) → (a && b) ≡ true → (a ≡ true) × (b ≡ true)
&&-true a b h = ground arith

allowed_for-Spaced_from :
    (k : Text) (m : LastSent) (more : List Attempt)
    → AllPositive more
    → Spaced (lookup k m) (allowed_for k m more)
unfolding allowed_for
allowed_for-Spaced_from k m [] h = tt
allowed_for-Spaced_from k m (a ∷ more) h =
    let ih = allowed_for-Spaced_from k (allow_key a.time a.key a.cooldown m).0 more h.1 in
    let ih' = rw (lookup-allow_key k a m h.0) at ih in
    elim (Bool-cases ((allow_key a.time a.key a.cooldown m).1 && a.key == k)) [
      | inl hit ↦
          let (ok, same) = &&-true _ _ hit in
          rw hit (
            Spaced-cons (lookup k m) a _
              (λ t e. allowed-late a m h.0 (rw ((==_iff a.key k).0 same) e) ok) (rw hit at ih'))
      | inr miss ↦ rw miss (rw miss at ih')
    ]

-- In every sequence of calls with positive cooldowns, the replies that are allowed for one key
-- come, each, at least its own cooldown after the reply before it for that key.
pub allowed_for-Spaced :
    (k : Text) (calls : List Attempt) → AllPositive calls → Spaced none (allowed_for k [] calls)
allowed_for-Spaced k calls h = rw (lookup-nil k) at (allowed_for-Spaced_from k [] calls h)
  where
    lookup-nil : (k : Text) → lookup {Value = ℕ} k [] ≡ none
    lookup-nil k = unfold lookup in refl
