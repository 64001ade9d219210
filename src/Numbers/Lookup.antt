-- ===== src/Numbers/Lookup.antt =====
-- `findClientByNumber` of router.go. The stored number is looked for inside the searched one.
use mathlib.Core.List.{Memᴰ}
use gomsggw.Base.{
  true, List, [], ◌∷◌, none, some, Text, ◌≡◌, refl, sym, ap, inl, inr, Bool-cases, Option-cases,
}
use gomsggw.Base.Strings.{contains, trim_plus}
use gomsggw.Client.{Client, ClientNumber}
use gomsggw.Numbers.{find_number, find_owner, client_part, find_client_by_number}

-- A client has a number that stands inside the searched one.
abbrev pub Owns : Text → Client → Type 0
Owns searched c = (n : ClientNumber) × (find_number searched c.numbers ≡ some n)

find_number_sound :
    (searched : Text) (ns : List ClientNumber) {n : ClientNumber}
    → find_number searched ns ≡ some n
    → Memᴰ n ns × (contains searched n.number ≡ true)
unfolding find_number
find_number_sound searched [] h = cc
find_number_sound searched (m ∷ ns) {n} h = elim (Bool-cases (contains searched m.number)) [
  | inl found ↦ let same : n ≡ m = cc (rw found at h) in (Memᴰ.head same, rw same found)
  | inr other ↦
      let (member, found) = find_number_sound searched ns (rw other at h) in
      (Memᴰ.tail member, found)
]

find_owner_next :
    (searched : Text) (d : Client) (cs : List Client)
    → find_number searched d.numbers ≡ none
    → find_owner searched (d ∷ cs) ≡ find_owner searched cs
unfolding find_owner
find_owner_next searched d cs missing = rw (missing, find_owner)

find_owner_here :
    (searched : Text) (d : Client) (cs : List Client) {n : ClientNumber}
    → find_number searched d.numbers ≡ some n
    → find_owner searched (d ∷ cs) ≡ some (d, n)
unfolding find_owner
find_owner_here searched d cs found = rw (found, find_owner)

find_owner_sound :
    (searched : Text) (cs : List Client) {c : Client} {n : ClientNumber}
    → find_owner searched cs ≡ some (c, n)
    → Memᴰ c cs × (find_number searched c.numbers ≡ some n)
find_owner_sound searched [] h = unfold find_owner in cc
find_owner_sound searched (d ∷ cs) {c} {n} h =
    elim (Option-cases (find_number searched d.numbers)) [
      | inl missing ↦
          let (member, found) =
            find_owner_sound searched cs (rw (find_owner_next searched d cs missing) at h) in
          (Memᴰ.tail member, found)
      | inr (m, found) ↦
          let both : (c, n) ≡ (d, m) = cc (rw (find_owner_here searched d cs found) at h) in
          let owner : c ≡ d = ap (λ (p : Client × ClientNumber). p.0) both in
          let number : n ≡ m = ap (λ (p : Client × ClientNumber). p.1) both in
          (Memᴰ.head owner, rw (owner, number) found)
    ]

find_owner_unique :
    (searched : Text) (cs : List Client) (c : Client)
    → Memᴰ c cs
    → Owns searched c
    → ((d : Client) → Memᴰ d cs → Owns searched d → d ≡ c)
    → client_part (find_owner searched cs) ≡ some c
find_owner_unique searched [] c member owns alone = elim member [ ]
find_owner_unique searched (d ∷ cs) c (Memᴰ.head same) owns alone =
    rw (find_owner_here searched d cs (rw same at owns.1)) (ap some (sym same))
find_owner_unique searched (d ∷ cs) c (Memᴰ.tail member) owns alone =
    elim (Option-cases (find_number searched d.numbers)) [
      | inl missing ↦
          rw (find_owner_next searched d cs missing)
            (find_owner_unique searched cs c member owns (λ e m o. alone e (Memᴰ.tail m) o))
      | inr (n, found) ↦
          rw (find_owner_here searched d cs found) (ap some (alone d (Memᴰ.head refl) (n, found)))
    ]

-- The client that `findClientByNumber` returns is one of the clients, and has a number that stands
-- inside the searched number without its plus.
pub find_client_by_number_sound :
    (number : Text) (clients : List Client) {c : Client}
    → find_client_by_number number clients ≡ some c
    → Memᴰ c clients
      × ((n : ClientNumber) × Memᴰ n c.numbers × (contains (trim_plus number) n.number ≡ true))
unfolding find_client_by_number
find_client_by_number_sound number clients h =
    elim (Option-cases (find_owner (trim_plus number) clients)) [
      | inl missing ↦ cc (rw missing at h)
      | inr ((d, n), found) ↦
          let same = some_path (rw found at h) in
          let (member, own) = find_owner_sound (trim_plus number) clients found in
          let (inside, part) = find_number_sound (trim_plus number) d.numbers own in
          rw (← same) (member, (n, inside, part))
    ]
  where
    some_path : {a b : Client} → some a ≡ some b → a ≡ b
    some_path p = cc p

-- A client whose numbers match the searched one is found, in whatever order the map is visited, if
-- no other client matches it too.
pub find_client_by_number_unique :
    (number : Text) (clients : List Client) (c : Client)
    → Memᴰ c clients
    → Owns (trim_plus number) c
    → ((d : Client) → Memᴰ d clients → Owns (trim_plus number) d → d ≡ c)
    → find_client_by_number number clients ≡ some c
unfolding find_client_by_number
find_client_by_number_unique number = find_owner_unique (trim_plus number)

-- Where two different clients match the searched number, the client found depends on the order of
-- the visits: each of the two is found in one of the two orders.
pub find_client_by_number-order :
    (number : Text) (c d : Client)
    → Owns (trim_plus number) c
    → Owns (trim_plus number) d
    → (find_client_by_number number (c ∷ d ∷ []) ≡ some c)
      × (find_client_by_number number (d ∷ c ∷ []) ≡ some d)
unfolding find_client_by_number
find_client_by_number-order number c d p q = (
  rw (find_owner_here (trim_plus number) c (d ∷ []) p.1),
  rw (find_owner_here (trim_plus number) d (c ∷ []) q.1),
)
