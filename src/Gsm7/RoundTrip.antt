-- ===== src/Gsm7/RoundTrip.antt =====
-- `encodeUnpackedGSM7` and `decodeUnpackedGSM7` of smpp_gsm7.go, one after the other.
use gomsggw.Base.{
  ℕ, List, [], ◌∷◌, ◌++◌, none, some, Text, nat_eq, nat_eq_iff, All, Eq_ℕ, ◌≡◌, refl, sym, ◌∙◌,
  arith, inl, inr, Bool-cases, Option-cases,
}
use gomsggw.Base.Map.{lookup, insert, lookup-insert}
use gomsggw.Gsm7.Tables.{gsm7_reverse_map, gsm7_ext_reverse_map}
use gomsggw.Gsm7.{
  escape, build_map, Gsm7Maps, init_maps, encode_rune, encode_unpacked_gsm7, prepend_rune,
  decode_unpacked_gsm7,
}

-- Each entry that a loop visits is one of the table's.
abbrev pub Visits : List (ℕ × ℕ) → List (ℕ × ℕ) → Type 0
Visits table visit = All (λ entry. lookup entry.0 table ≡ some entry.1) visit

-- A map that takes runes back to bytes of the table.
abbrev pub Inverts : List (ℕ × ℕ) → List (ℕ × ℕ) → Type 0
Inverts table built = (r b : ℕ) → lookup r built ≡ some b → lookup b table ≡ some r

build_map-Inverts :
    (table visit built : List (ℕ × ℕ))
    → Visits table visit
    → Inverts table built
    → Inverts table (build_map visit built)
unfolding build_map
build_map-Inverts table [] built visits inverts = inverts
build_map-Inverts table (entry ∷ visit) built visits inverts =
    build_map-Inverts table visit (insert entry.1 entry.0 built) visits.1 later
  where
    later : Inverts table (insert entry.1 entry.0 built)
    later r b found = elim (Bool-cases (nat_eq entry.1 r)) [
      | inl same ↦
          let at_entry : entry.0 ≡ b =
            ground (arith, lookup-insert entry.1 r entry.0 built, same, found) in
          rw (← at_entry, ← (nat_eq_iff entry.1 r).0 same) visits.0
      | inr other ↦
          inverts r b (ground (arith, lookup-insert entry.1 r entry.0 built, other, found))
    ]

some_path {ℓ} : {A : Type ℓ} {a b : A} → some a ≡ some b → a ≡ b
some_path p = cc p

-- Every entry of the two tables leaves the escape byte alone.
escape_free : lookup escape gsm7_reverse_map ≡ none
unfolding lookup gsm7_reverse_map
escape_free = refl

decode-plain :
    (b r : ℕ) (input : List ℕ)
    → lookup b gsm7_reverse_map ≡ some r
    → decode_unpacked_gsm7 (b ∷ input) ≡ prepend_rune (some r) (decode_unpacked_gsm7 input)
unfolding decode_unpacked_gsm7
decode-plain b r [] found = elim (Bool-cases (nat_eq b escape)) [
  | inl same ↦ absurd (ground (arith, escape_free, found, (nat_eq_iff b escape).0 same))
  | inr other ↦ rw (other, found, decode_unpacked_gsm7)
]
decode-plain b r (e ∷ input) found = elim (Bool-cases (nat_eq b escape)) [
  | inl same ↦ absurd (ground (arith, escape_free, found, (nat_eq_iff b escape).0 same))
  | inr other ↦ rw (other, found, decode_unpacked_gsm7)
]

decode-escaped :
    (e r : ℕ) (input : List ℕ)
    → lookup e gsm7_ext_reverse_map ≡ some r
    → decode_unpacked_gsm7 (escape ∷ e ∷ input) ≡ prepend_rune (some r) (decode_unpacked_gsm7 input)
unfolding decode_unpacked_gsm7
decode-escaped e r input found = rw found

module _ (maps : Gsm7Maps) (plain : Inverts gsm7_reverse_map maps.default_map)
    (ext : Inverts gsm7_ext_reverse_map maps.ext_map) where
  decode-encode_rune :
      (r : ℕ) (bytes input : List ℕ)
      → encode_rune maps r ≡ some bytes
      → decode_unpacked_gsm7 (bytes ++ input) ≡ prepend_rune (some r) (decode_unpacked_gsm7 input)
  unfolding encode_rune
  decode-encode_rune r bytes input h = elim (Option-cases (lookup r maps.default_map)) [
    | inr (b, hit) ↦
        let one : b ∷ [] ≡ bytes = some_path (rw hit at h) in
        rw (← one) (decode-plain b r input (plain r b hit))
    | inl miss ↦ elim (Option-cases (lookup r maps.ext_map)) [
      | inr (e, hit) ↦
          let two : escape ∷ e ∷ [] ≡ bytes = some_path (rw (miss, hit) at h) in
          rw (← two) (decode-escaped e r input (ext r e hit))
      | inl neither ↦ cc (rw (miss, neither) at h)
    ]
  ]

  decode-encode :
      (input : Text) (bytes : List ℕ)
      → encode_unpacked_gsm7 maps input ≡ some bytes
      → decode_unpacked_gsm7 bytes ≡ some input
  unfolding encode_unpacked_gsm7 decode_unpacked_gsm7
  decode-encode [] bytes h = let none_left : [] ≡ bytes = some_path h in rw (← none_left)
  decode-encode (r ∷ input) bytes h = elim (Option-cases (encode_rune maps r)) [
    | inl bad ↦ cc (rw bad at h)
    | inr (first, ok) ↦ elim (Option-cases (encode_unpacked_gsm7 maps input)) [
      | inl bad ↦ cc (rw (ok, bad) at h)
      | inr (later, ok') ↦
          let joined : first ++ later ≡ bytes = some_path (rw (ok, ok') at h) in
          rw (← joined, decode-encode_rune r first later ok, decode-encode input later ok')
    ]
  ]

lookup-nil : (r : ℕ) → lookup {Value = ℕ} r [] ≡ none
unfolding lookup
lookup-nil r = refl

-- In whatever order `init` visits entries of the two tables: a text that `encodeUnpackedGSM7` encodes without an error is decoded to the same text by
-- `decodeUnpackedGSM7`, without an error.
pub decode_unpacked_gsm7-encode :
    (visit visit_ext : List (ℕ × ℕ)) (input : Text) (bytes : List ℕ)
    → Visits gsm7_reverse_map visit
    → Visits gsm7_ext_reverse_map visit_ext
    → encode_unpacked_gsm7 (init_maps visit visit_ext) input ≡ some bytes
    → decode_unpacked_gsm7 bytes ≡ some input
unfolding init_maps
decode_unpacked_gsm7-encode visit visit_ext input bytes visits visits_ext encoded =
    decode-encode (init_maps visit visit_ext)
      (build_map-Inverts gsm7_reverse_map visit [] visits (no_entry gsm7_reverse_map))
      (build_map-Inverts gsm7_ext_reverse_map visit_ext [] visits_ext
        (no_entry gsm7_ext_reverse_map))
      input bytes encoded
  where
    no_entry : (table : List (ℕ × ℕ)) → Inverts table []
    no_entry table r b found = cc (sym (lookup-nil r) ∙ found)
