-- ===== src/Batch/Rows.antt =====
-- The rows of a batch job: lists of them compared row by row, and their ids.
use gomsggw.Base.{
  ◌+◌, ◌≤◌, Bool, true, false, ◌||◌, List, [], ◌∷◌, map, some, String, Eq_String, ◌==◌, ==_iff,
  count, All, ◌≡◌, inl, inr, refl, Bool-cases, arith,
}
pub use gomsggw.Base.{All-map, All-weaken, All-both}
use gomsggw.Batch.{BatchMessageItem, pending, find_row}

abbrev pub is_pending : BatchMessageItem → Bool
is_pending r = elim r.status [ pending ↦ true | _ ↦ false ]

abbrev pub has : String → List String → Bool
has x [] = false
has x (y ∷ ys) = y == x || has x ys

abbrev pub ids : List BatchMessageItem → List String
ids [] = []
ids (r ∷ rows) = r.id ∷ ids rows

abbrev pub Distinct : List String → Type 0
Distinct [] = Unit
Distinct (x ∷ xs) = (has x xs ≡ false) × Distinct xs

module _ {ℓ} {A : Type ℓ} where
  abbrev pub Pointwise : (A → A → Type 0) → List A → List A → Type 0
  Pointwise R [] [] = Unit
  Pointwise R (r ∷ rows) (s ∷ ss) = R r s × Pointwise R rows ss
  Pointwise R _ _ = ⊥

  pub Pointwise-map :
      (R : A → A → Type 0) (g : A → A) (rows : List A)
      → All (λ r. R r (g r)) rows
      → Pointwise R rows (map g rows)
  Pointwise-map R g [] h = tt
  Pointwise-map R g (r ∷ rows) h = (h.0, Pointwise-map R g rows h.1)

  pub Pointwise-refl :
      (R : A → A → Type 0) (rows : List A) → All (λ r. R r r) rows → Pointwise R rows rows
  Pointwise-refl R [] h = tt
  Pointwise-refl R (r ∷ rows) h = (h.0, Pointwise-refl R rows h.1)

  pub Pointwise-trans :
      (R : A → A → Type 0) (xs ys zs : List A)
      → ((x y z : A) → R x y → R y z → R x z)
      → Pointwise R xs ys
      → Pointwise R ys zs
      → Pointwise R xs zs
  Pointwise-trans R [] [] [] law h k = tt
  Pointwise-trans R (x ∷ xs) (y ∷ ys) (z ∷ zs) law h k =
      (law x y z h.0 k.0, Pointwise-trans R xs ys zs law h.1 k.1)
  Pointwise-trans R [] [] (z ∷ zs) law h k = absurd k
  Pointwise-trans R [] (y ∷ ys) zs law h k = absurd h
  Pointwise-trans R (x ∷ xs) [] zs law h k = absurd h
  Pointwise-trans R (x ∷ xs) (y ∷ ys) [] law h k = absurd k

  pub All-Pointwise :
      (R : A → A → Type 0) (P : A → Type 0) (Q : A → Type 0) (rows ss : List A)
      → ((r s : A) → R r s → P r → Q s)
      → Pointwise R rows ss
      → All P rows
      → All Q ss
  All-Pointwise R P Q [] [] law h k = tt
  All-Pointwise R P Q (r ∷ rows) (s ∷ ss) law h k =
      (law r s h.0 k.0, All-Pointwise R P Q rows ss law h.1 k.1)
  All-Pointwise R P Q [] (s ∷ ss) law h k = absurd h
  All-Pointwise R P Q (r ∷ rows) [] law h k = absurd h

  pub count-le :
      (R : A → A → Type 0) (p p' : A → Bool) (rows ss : List A)
      → ((r s : A) → R r s → p' s ≡ true → p r ≡ true)
      → Pointwise R rows ss
      → count p' ss ≤ count p rows
  count-le R p p' [] [] law h = omega arith
  count-le R p p' (r ∷ rows) (s ∷ ss) law h =
      ground (arith, law r s h.0, count-le R p p' rows ss law h.1)
  count-le R p p' [] (s ∷ ss) law h = absurd h
  count-le R p p' (r ∷ rows) [] law h = absurd h

-- A row that a test holds of no longer, at the id of at least one row, and no row that it begins to
-- hold of.
pub record Drops (p p' : BatchMessageItem → Bool) (q : String) (r s : BatchMessageItem)
    : Type 0 where
  pub no_more : p' s ≡ true → p r ≡ true
  pub counted : (r.id == q) ≡ true → p r ≡ true
  pub dropped : (r.id == q) ≡ true → p' s ≡ false

pub count-lt :
    (p p' : BatchMessageItem → Bool) (q : String) (rows ss : List BatchMessageItem)
    → Pointwise (Drops p p' q) rows ss
    → has q (ids rows) ≡ true
    → count p' ss + 1 ≤ count p rows
count-lt p p' q [] [] h found = cc
count-lt p p' q (r ∷ rows) (s ∷ ss) h found = elim (Bool-cases (r.id == q)) [
  | inl here ↦
      let less : count p' ss ≤ count p rows =
        count-le (Drops p p' q) p p' rows ss (λ r s d. d.no_more) h.1 in
      rw (h.0.counted here, h.0.dropped here) (omega arith)
  | inr elsewhere ↦
      let less : count p' ss + 1 ≤ count p rows =
        count-lt p p' q rows ss h.1 (rw elsewhere at found) in
      ground (arith, h.0.no_more)
]
count-lt p p' q [] (s ∷ ss) h found = absurd h
count-lt p p' q (r ∷ rows) [] h found = absurd h

-- Each row in the place of another has its id.
pub ids-Pointwise :
    (R : BatchMessageItem → BatchMessageItem → Type 0) (rows ss : List BatchMessageItem)
    → ((r s : BatchMessageItem) → R r s → s.id ≡ r.id)
    → Pointwise R rows ss
    → ids ss ≡ ids rows
ids-Pointwise R [] [] law h = refl
ids-Pointwise R (r ∷ rows) (s ∷ ss) law h = cc (law r s h.0, ids-Pointwise R rows ss law h.1)
ids-Pointwise R [] (s ∷ ss) law h = absurd h
ids-Pointwise R (r ∷ rows) [] law h = absurd h

absent :
    (q : String) (P : BatchMessageItem → Type 0) (rows : List BatchMessageItem)
    → has q (ids rows) ≡ false
    → All (λ r. (r.id == q) ≡ true → P r) rows
absent q P [] h = tt
absent q P (r ∷ rows) h = (λ e. absurd (ground (arith, e)), absent q P rows (ground arith))

-- The row that is found is the only one with its id.
pub find_row-All :
    (q : String) (rows : List BatchMessageItem) {r : BatchMessageItem}
    → Distinct (ids rows)
    → find_row q rows ≡ some r
    → All (λ s. (s.id == q) ≡ true → s ≡ r) rows
unfolding find_row
find_row-All q [] one h = cc
find_row-All q (s ∷ rows) {r} one h = elim (Bool-cases (s.id == q)) [
  | inl here ↦
      (λ e. ground (arith, here), absent q (λ t. t ≡ r) rows (rw ((==_iff s.id q).0 here) at one.0))
  | inr elsewhere ↦ (λ e. cc, find_row-All q rows one.1 (rw elsewhere at h))
]
