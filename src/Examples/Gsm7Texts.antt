-- ===== src/Examples/Gsm7Texts.antt =====
-- Examples for smpp_gsm7.go.
use gomsggw.Base.{
  Eq_ℕ, and_left, and_right, ℕ, Bool, false, nat_eq, nat_eq_iff, ◌&&◌, Option, ap, arith, true,
  List, [], ◌∷◌, none, some, Text, codes, ◌≡◌, ◌↔◌, refl,
}
use gomsggw.Base.Map.{lookup, insert, delete}
use gomsggw.Coding.{validate_gsm7, all_in, is_in}
use gomsggw.Gsm7.Gap.{has_gap, encode_unpacked_gsm7-validate}
use gomsggw.Gsm7.RoundTrip.{Visits, decode_unpacked_gsm7-encode}
use gomsggw.Gsm7.Tables.{gsm7_reverse_map, gsm7_ext_reverse_map}
use gomsggw.Gsm7.{build_map, init_maps, encode_rune, encode_unpacked_gsm7, decode_unpacked_gsm7}

-- a plain letter and a bracket, which is escaped
abbrev bracket_text : Text
bracket_text = codes "a["

abbrev is_entry : Option ℕ → ℕ → Bool
is_entry none r = false
is_entry (some s) r = nat_eq s r

abbrev visits_test : List (ℕ × ℕ) → List (ℕ × ℕ) → Bool
visits_test table [] = true
visits_test table (entry ∷ visit) =
    is_entry (lookup entry.0 table) entry.1 && visits_test table visit

is_entry-eq : (o : Option ℕ) (r : ℕ) → is_entry o r ≡ true → o ≡ some r
is_entry-eq none r h = ground (arith, h)
is_entry-eq (some s) r h = ap some ((nat_eq_iff s r).0 h)

visits_test-Visits :
    (table visit : List (ℕ × ℕ)) → visits_test table visit ≡ true → Visits table visit
visits_test-Visits table [] h = tt
visits_test-Visits table (entry ∷ visit) h = (
  is_entry-eq (lookup entry.0 table) entry.1
      (and_left (is_entry (lookup entry.0 table) entry.1) _ h),
  visits_test-Visits table visit (and_right (is_entry (lookup entry.0 table) entry.1) _ h),
)

pub table-Visits : Visits gsm7_reverse_map gsm7_reverse_map
table-Visits =
    visits_test-Visits gsm7_reverse_map gsm7_reverse_map (unfold gsm7_reverse_map lookup in refl)

pub ext_table-Visits : Visits gsm7_ext_reverse_map gsm7_ext_reverse_map
ext_table-Visits =
    visits_test-Visits gsm7_ext_reverse_map gsm7_ext_reverse_map
      (unfold gsm7_ext_reverse_map lookup in refl)

bracket_encoded :
    encode_unpacked_gsm7 (init_maps gsm7_reverse_map gsm7_ext_reverse_map) bracket_text
    ≡ some (0x61 ∷ 0x1b ∷ 0x3c ∷ [])
unfolding encode_unpacked_gsm7 init_maps gsm7_reverse_map gsm7_ext_reverse_map build_map encode_rune
    lookup insert delete
bracket_encoded = refl

decode_unpacked_gsm7-encode_example :
    decode_unpacked_gsm7 (0x61 ∷ 0x1b ∷ 0x3c ∷ []) ≡ some bracket_text
decode_unpacked_gsm7-encode_example =
    decode_unpacked_gsm7-encode gsm7_reverse_map gsm7_ext_reverse_map bracket_text
      (0x61 ∷ 0x1b ∷ 0x3c ∷ []) table-Visits ext_table-Visits bracket_encoded

-- "ca" with a cedilla
abbrev cedilla_text : Text
cedilla_text = 0xe7 ∷ 0x61 ∷ []

cedilla_valid : validate_gsm7 cedilla_text ≡ true
unfolding validate_gsm7 all_in is_in
cedilla_valid = refl

encode_unpacked_gsm7-validate_example :
    (encode_unpacked_gsm7 (init_maps gsm7_reverse_map gsm7_ext_reverse_map) cedilla_text ≡ none)
    ↔ (has_gap cedilla_text ≡ true)
encode_unpacked_gsm7-validate_example =
    encode_unpacked_gsm7-validate gsm7_reverse_map gsm7_ext_reverse_map cedilla_text (λ r. refl)
      (λ r. refl) cedilla_valid
