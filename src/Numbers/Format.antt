-- ===== src/Numbers/Format.antt =====
-- `FormatToE164` of router.go.
use gomsggw.Base.{
  ℕ, ◌≤◌, Bool, true, false, [], ◌∷◌, ◌++◌, Text, length, ◌≡◌, refl, sym, ap, ◌∙◌, ◌⊎◌, inl, inr,
  Bool-cases, arith,
}
use gomsggw.Base.Strings.{trim_left_plus, before_slash, keep_digits, all_digits}
use gomsggw.Numbers.{matches_digits, matches_e164, cleaned, format_to_e164}

keep_digits-all_digits : (s : Text) → all_digits (keep_digits s) ≡ true
unfolding keep_digits all_digits
keep_digits-all_digits [] = refl
keep_digits-all_digits (a ∷ s) = ground (arith, keep_digits-all_digits s)

keep_digits_of_digits : (s : Text) → all_digits s ≡ true → keep_digits s ≡ s
unfolding keep_digits all_digits
keep_digits_of_digits [] h = refl
keep_digits_of_digits (a ∷ s) h = ground (arith, keep_digits_of_digits s)

before_slash_of_digits : (s : Text) → all_digits s ≡ true → before_slash s ≡ s
unfolding before_slash all_digits
before_slash_of_digits [] h = refl
before_slash_of_digits (a ∷ s) h = ground (arith, before_slash_of_digits s)

trim_left_plus_of_digits : (s : Text) → all_digits s ≡ true → trim_left_plus s ≡ s
unfolding trim_left_plus all_digits
trim_left_plus_of_digits [] h = refl
trim_left_plus_of_digits (a ∷ s) h = ground arith

-- a plus and digits are clean already
cleaned_of_digits : (s : Text) → all_digits s ≡ true → cleaned (b'+' ∷ s) ≡ b'+' ∷ s
unfolding cleaned
cleaned_of_digits s h =
    rw (before_slash_of_digits s h, trim_left_plus_of_digits s h, keep_digits_of_digits s h)

before_slash-append_slash : (s t : Text) → before_slash (s ++ (b'/' ∷ t)) ≡ before_slash s
unfolding before_slash
before_slash-append_slash [] t = refl
before_slash-append_slash (a ∷ s) t = ground (arith, before_slash-append_slash s t)

-- An E.164 number: a plus and 2 to 15 digits, the first not 0.
pub record IsE164 (s : Text) : Type 0 where
  pub first : ℕ
  pub others : Text
  pub shape : s ≡ b'+' ∷ first ∷ others
  pub first_digit : (b'1' ≤ first) × (first ≤ b'9')
  pub other_digits : all_digits others ≡ true
  pub others_count : (1 ≤ length others) × (length others ≤ 14)

matches_digits_parts : (ds : Text) → matches_digits ds ≡ true → IsE164 (b'+' ∷ ds)
unfolding matches_digits
matches_digits_parts [] h = ground arith
matches_digits_parts (d ∷ ds) h = record {
  first = d;
  others = ds;
  shape = refl;
  first_digit = ground arith;
  other_digits = ground arith;
  others_count = ground arith;
}

cleaned-digits :
    (number : Text) → (ds : Text) × (cleaned number ≡ b'+' ∷ ds) × (all_digits ds ≡ true)
unfolding cleaned
cleaned-digits number =
    let body = trim_left_plus (before_slash number) in
    (keep_digits body, refl, keep_digits-all_digits body)

matches_e164-plus : (ds : Text) → matches_e164 (b'+' ∷ ds) ≡ matches_digits ds
unfolding matches_e164
matches_e164-plus ds = refl

format_ok :
    (number : Text)
    → matches_e164 (cleaned number) ≡ true
    → format_to_e164 number ≡ (cleaned number, true)
unfolding format_to_e164
format_ok number h = rw (h, format_to_e164)

format_bad :
    (number : Text)
    → matches_e164 (cleaned number) ≡ false
    → format_to_e164 number ≡ (number, false)
unfolding format_to_e164
format_bad number h = rw (h, format_to_e164)

cleaned-cleaned : (number : Text) → cleaned (cleaned number) ≡ cleaned number
cleaned-cleaned number =
    let (ds, shape, digits) = cleaned-digits number in rw shape (cleaned_of_digits ds digits)

-- Every text: `FormatToE164` of what `FormatToE164` returns is the same text with the same verdict.
pub format_to_e164_idem :
    (number : Text) → format_to_e164 (format_to_e164 number).0 ≡ format_to_e164 number
format_to_e164_idem number = elim (Bool-cases (matches_e164 (cleaned number))) [
  | inl good ↦
      rw (format_ok number good) (
        format_ok (cleaned number) (rw (cleaned-cleaned number) good) ∙ rw (cleaned-cleaned number))
  | inr bad ↦ rw (format_bad number bad) (format_bad number bad)
]

-- Every text: either `FormatToE164` reports no error and returns a plus with 2 to 15 digits, the
-- first of them not 0, or it reports an error and returns the text unchanged.
pub format_to_e164-IsE164 :
    (number : Text)
    → ((format_to_e164 number).1 ≡ true) × IsE164 (format_to_e164 number).0
      ⊎ (format_to_e164 number ≡ (number, false))
format_to_e164-IsE164 number = elim (Bool-cases (matches_e164 (cleaned number))) [
  | inl good ↦
      let (ds, shape, digits) = cleaned-digits number in
      let valid : IsE164 (cleaned number) =
        rw shape (matches_digits_parts ds (sym (matches_e164-plus ds) ∙ rw shape at good)) in
      inl (rw (format_ok number good) (refl, valid))
  | inr bad ↦ inr (format_bad number bad)
]

-- A text that is formatted with no error is formatted alike with a slash and anything behind it,
-- such as "/TYPE=PLMN".
pub format_to_e164-append_slash :
    (number metadata : Text)
    → (format_to_e164 number).1 ≡ true
    → format_to_e164 (number ++ (b'/' ∷ metadata)) ≡ format_to_e164 number
format_to_e164-append_slash number metadata h = elim (Bool-cases (matches_e164 (cleaned number))) [
  | inl good ↦
      let same : cleaned (number ++ (b'/' ∷ metadata)) ≡ cleaned number =
        unfold cleaned in rw (before_slash-append_slash number metadata) in
      format_ok _ (rw same good) ∙ rw (same, format_ok number good)
  | inr bad ↦ cc (ap (λ (r : Text × Bool). r.1) (format_bad number bad))
]
