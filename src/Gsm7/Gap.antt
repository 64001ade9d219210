-- ===== src/Gsm7/Gap.antt =====
-- Where the test of smpp/coding for the GSM 7 bit alphabet and the encoder of smpp_gsm7.go differ.
use gomsggw.Base.{
  and_left, and_right, ℕ, zero, suc, ◌+◌, ◌-◌, ◌≤◌, Bool, true, false, not, ◌&&◌, ◌||◌, List, [],
  ◌∷◌, Option, none, some, Text, leb, nat_eq, nat_eq_iff, if◌then◌else◌, Eq_ℕ, ◌≡◌, ◌↔◌, refl, sym,
  ap, ◌∙◌, arith, inl, inr, Bool-cases, Option-cases,
}
use gomsggw.Base.Map.{lookup, insert, lookup-insert}
use gomsggw.Coding.{RangeTable, is_in, all_in, default_alphabet, validate_gsm7}
use gomsggw.Gsm7.Tables.{gsm7_reverse_map, gsm7_ext_reverse_map}
use gomsggw.Gsm7.{build_map, Gsm7Maps, init_maps, encode_rune, append_bytes, encode_unpacked_gsm7}

-- A rune is in a table.
unfoldable pub has_rune : ℕ → List (ℕ × ℕ) → Bool
has_rune r [] = false
has_rune r (entry ∷ entries) = nat_eq entry.1 r || has_rune r entries

-- The runes that the test accepts and the tables lack: no-break space, currency sign, c cedilla.
unfoldable pub is_gap : ℕ → Bool
is_gap r = nat_eq r 0xa0 || nat_eq r 0xa4 || nat_eq r 0xe7

unfoldable pub has_gap : Text → Bool
unfolding is_gap
has_gap [] = false
has_gap (r ∷ rs) = is_gap r || has_gap rs

abbrev is_some {ℓ} : {A : Type ℓ} → Option A → Bool
is_some none = false
is_some (some _) = true

build_map-has_rune :
    (r : ℕ) (visit built : List (ℕ × ℕ))
    → is_some (lookup r (build_map visit built)) ≡ (has_rune r visit || is_some (lookup r built))
unfolding build_map has_rune
build_map-has_rune r [] built = refl
build_map-has_rune r (entry ∷ visit) built = ground (
  arith,
  build_map-has_rune r visit (insert entry.1 entry.0 built),
  lookup-insert entry.1 r entry.0 built,
)

abbrev in_tables : ℕ → Bool
in_tables r = has_rune r gsm7_reverse_map || has_rune r gsm7_ext_reverse_map

-- A test that holds for `n` numbers from `low`.
unfoldable from_low : (ℕ → Bool) → ℕ → ℕ → Bool
from_low p low zero = true
from_low p low (suc n) = p low && from_low p (suc low) n

from_low_lem :
    (p : ℕ → Bool) (low n r : ℕ) → from_low p low n ≡ true → low ≤ r → suc r ≤ low + n → p r ≡ true
unfolding from_low
from_low_lem p low zero r h above below = absurd (omega arith)
from_low_lem p low (suc n) r h above below = elim (Bool-cases (nat_eq low r)) [
  | inl here ↦ ap p (sym ((nat_eq_iff low r).0 here)) ∙ and_left (p low) _ h
  | inr later ↦
      from_low_lem p (suc low) n r (and_right (p low) _ h) (ground (arith, later, above))
        (omega arith)
]

unfoldable on_ranges : (ℕ → Bool) → RangeTable → Bool
unfolding from_low
on_ranges p [] = true
on_ranges p ((low, high) ∷ ranges) = from_low p low (suc high - low) && on_ranges p ranges

on_ranges_lem :
    (p : ℕ → Bool) (table : RangeTable) (r : ℕ)
    → on_ranges p table ≡ true
    → is_in table r ≡ true
    → p r ≡ true
unfolding on_ranges is_in
on_ranges_lem p [] r h member = absurd (ground (arith, member))
on_ranges_lem p ((low, high) ∷ ranges) r h member = elim (Bool-cases (leb low r && leb r high)) [
  | inl inside ↦
      from_low_lem p low (suc high - low) r (and_left _ (on_ranges p ranges) h)
        (ground (arith, inside)) (ground (arith, inside))
  | inr outside ↦
      on_ranges_lem p ranges r (and_right (from_low p low (suc high - low)) _ h)
        (ground (arith, outside, member))
]

abbrev agrees : ℕ → Bool
agrees r = if in_tables r then not (is_gap r) else is_gap r

alphabet_agrees : on_ranges agrees default_alphabet ≡ true
unfolding on_ranges has_rune is_gap gsm7_reverse_map gsm7_ext_reverse_map
alphabet_agrees = refl

append_bytes-is_some :
    (first later : Option (List ℕ))
    → is_some (append_bytes first later) ≡ (is_some first && is_some later)
append_bytes-is_some none later = refl
append_bytes-is_some (some bytes) none = refl
append_bytes-is_some (some bytes) (some more) = refl

not-or : (a b : Bool) → (not a && not b) ≡ not (a || b)
not-or true b = refl
not-or false b = refl

lookup-nil : (r : ℕ) → is_some (lookup {Value = ℕ} r []) ≡ false
unfolding lookup
lookup-nil r = refl

built-has_rune :
    (visit table : List (ℕ × ℕ))
    → ((r : ℕ) → has_rune r visit ≡ has_rune r table)
    → (r : ℕ) → is_some (lookup r (build_map visit [])) ≡ has_rune r table
built-has_rune visit table all_visited r =
    ground (arith, build_map-has_rune r visit [], lookup-nil r, all_visited r)

module _ (maps : Gsm7Maps)
    (plain : (r : ℕ) → is_some (lookup r maps.default_map) ≡ has_rune r gsm7_reverse_map)
    (ext : (r : ℕ) → is_some (lookup r maps.ext_map) ≡ has_rune r gsm7_ext_reverse_map) where
  encode_rune-gap :
      (r : ℕ) → is_in default_alphabet r ≡ true → is_some (encode_rune maps r) ≡ not (is_gap r)
  unfolding encode_rune
  encode_rune-gap r member =
      ground (arith, plain r, ext r, on_ranges_lem agrees default_alphabet r alphabet_agrees member)

  encode-gap :
      (input : Text)
      → all_in default_alphabet input ≡ true
      → is_some (encode_unpacked_gsm7 maps input) ≡ not (has_gap input)
  unfolding encode_unpacked_gsm7 has_gap all_in
  encode-gap [] h = refl
  encode-gap (r ∷ input) h =
      let at_r = encode_rune-gap r (and_left (is_in default_alphabet r) _ h) in
      let later = encode-gap input (and_right (is_in default_alphabet r) _ h) in
      rw (append_bytes-is_some (encode_rune maps r), at_r, later)
        (not-or (is_gap r) (has_gap input))

-- When `init` visits an entry for each rune of the two tables and for no other: a text that passes
-- the GSM 7 bit test of smpp/coding is refused by `encodeUnpackedGSM7` exactly when it has a
-- no-break space (0xa0), a currency sign (0xa4) or a small c with cedilla (0xe7).
pub encode_unpacked_gsm7-validate :
    (visit visit_ext : List (ℕ × ℕ)) (input : Text)
    → ((r : ℕ) → has_rune r visit ≡ has_rune r gsm7_reverse_map)
    → ((r : ℕ) → has_rune r visit_ext ≡ has_rune r gsm7_ext_reverse_map)
    → validate_gsm7 input ≡ true
    → (encode_unpacked_gsm7 (init_maps visit visit_ext) input ≡ none) ↔ (has_gap input ≡ true)
unfolding init_maps validate_gsm7
encode_unpacked_gsm7-validate visit visit_ext input plain ext valid = (to, back)
  where
    maps : Gsm7Maps
    maps = init_maps visit visit_ext

    law : is_some (encode_unpacked_gsm7 maps input) ≡ not (has_gap input)
    law =
        encode-gap maps (built-has_rune visit gsm7_reverse_map plain)
          (built-has_rune visit_ext gsm7_ext_reverse_map ext) input valid

    to : encode_unpacked_gsm7 maps input ≡ none → has_gap input ≡ true
    to refused = ground (arith, law, refused)

    back : has_gap input ≡ true → encode_unpacked_gsm7 maps input ≡ none
    back gap = elim (Option-cases (encode_unpacked_gsm7 maps input)) [
      | inl refused ↦ refused
      | inr (bytes, ok) ↦ absurd (ground (arith, law, gap, ok))
    ]
