-- ===== src/Gsm7.antt =====
-- smpp_gsm7.go: the GSM 7 bit alphabet with one septet to a byte, as `sms_server.go` uses it for
-- what SMPP clients send and receive. A text is its runes. `none` is the error.
pub mod Tables
pub mod RoundTrip
pub mod Gap
use gomsggw.Base.{ℕ, Bool, true, false, List, [], ◌∷◌, ◌++◌, Option, none, some, Text, nat_eq, Eq_ℕ}
use gomsggw.Base.Map.{lookup, insert}
use gomsggw.Gsm7.Tables.{gsm7_reverse_map, gsm7_ext_reverse_map}

-- 0x1B
abbrev pub escape : ℕ
escape = 0x1b

-- The loops of `init`, which visit the entries of a map in any order: a later entry of the same
-- rune replaces an earlier one.
unfoldable pub build_map : List (ℕ × ℕ) → List (ℕ × ℕ) → List (ℕ × ℕ)
build_map [] built = built
build_map (entry ∷ entries) built = build_map entries (insert entry.1 entry.0 built)

-- `gsm7DefaultMap` and `gsm7ExtMap`
pub record Gsm7Maps : Type 0 where
  pub default_map : List (ℕ × ℕ)
  pub ext_map : List (ℕ × ℕ)

unfoldable pub init_maps : List (ℕ × ℕ) → List (ℕ × ℕ) → Gsm7Maps
unfolding build_map
init_maps visit visit_ext = record {
  default_map = build_map visit [];
  ext_map = build_map visit_ext [];
}

abbrev pub escaped : Option ℕ → Option (List ℕ)
escaped none = none
escaped (some eb) = some (escape ∷ eb ∷ [])

abbrev pub or_escaped : Option ℕ → Option ℕ → Option (List ℕ)
or_escaped none ext = escaped ext
or_escaped (some b) ext = some (b ∷ [])

unfoldable pub encode_rune : Gsm7Maps → ℕ → Option (List ℕ)
encode_rune maps r = or_escaped (lookup r maps.default_map) (lookup r maps.ext_map)

abbrev pub append_bytes : Option (List ℕ) → Option (List ℕ) → Option (List ℕ)
append_bytes none later = none
append_bytes (some bytes) none = none
append_bytes (some bytes) (some later) = some (bytes ++ later)

unfoldable pub encode_unpacked_gsm7 : Gsm7Maps → Text → Option (List ℕ)
unfolding encode_rune
encode_unpacked_gsm7 maps [] = some []
encode_unpacked_gsm7 maps (r ∷ input) =
    append_bytes (encode_rune maps r) (encode_unpacked_gsm7 maps input)

-- The rune that was looked up, in front of the rest.
abbrev pub prepend_rune : Option ℕ → Option Text → Option Text
prepend_rune none later = none
prepend_rune (some r) none = none
prepend_rune (some r) (some later) = some (r ∷ later)

unfoldable pub decode_unpacked_gsm7 : List ℕ → Option Text
decode_unpacked_gsm7 [] = some []
decode_unpacked_gsm7 (b ∷ []) = elim (nat_eq b escape) [
  | true ↦ none
  | false ↦ prepend_rune (lookup b gsm7_reverse_map) (some [])
]
decode_unpacked_gsm7 (b ∷ e ∷ input) = elim (nat_eq b escape) [
  | true ↦ prepend_rune (lookup e gsm7_ext_reverse_map) (decode_unpacked_gsm7 input)
  | false ↦ prepend_rune (lookup b gsm7_reverse_map) (decode_unpacked_gsm7 (e ∷ input))
]
