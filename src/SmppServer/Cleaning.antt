-- ===== src/SmppServer/Cleaning.antt =====
-- cleanSMSMessage of sms_server.go.
use gomsggw.Base.{
  ℕ, Bool, false, not, ◌&&◌, ◌||◌, List, [], ◌∷◌, ◌++◌, Option, none, some, Text, codes, nat_eq,
  leb, ltb, Eq_ℕ, if◌then◌else◌,
}
use gomsggw.Base.Map.{lookup}

abbrev in_range : ℕ → ℕ → ℕ → Bool
in_range lo hi r = leb lo r && leb r hi

unfoldable pub is_emoji : ℕ → Bool
is_emoji r =
    in_range 0x1F600 0x1F64F r
    || in_range 0x1F300 0x1F5FF r
    || in_range 0x1F680 0x1F6FF r
    || in_range 0x2600 0x26FF r
    || in_range 0x2700 0x27BF r
    || in_range 0x1F900 0x1F9FF r

-- `strings.ContainsRune`
unfoldable pub contains_rune : ℕ → Text → Bool
contains_rune r [] = false
contains_rune r (a ∷ s) = nat_eq a r || contains_rune r s

abbrev pub allowed_punct : Text
allowed_punct = codes ".,!?;:'\"-()[]{}"

-- `letter` is `unicode.IsLetter`, `IsDigit` or `IsSpace`.
unfoldable pub is_gsm_allowed : (ℕ → Bool) → ℕ → Bool
unfolding contains_rune
is_gsm_allowed letter r = letter r || contains_rune r allowed_punct

abbrev pub replacement_map : List (ℕ × Text)
replacement_map =
    (0x2018, codes "'")
    ∷ (0x2019, codes "'")
    ∷ (0x201A, codes "'")
    ∷ (0x201C, codes "\"")
    ∷ (0x201D, codes "\"")
    ∷ (0x2013, codes "-")
    ∷ (0x2014, codes "-")
    ∷ (0x2026, codes "...")
    ∷ []

unfoldable pub is_control : ℕ → Bool
is_control r =
    nat_eq r 0
    || nat_eq r 0x1B
    || (ltb r 32 && not (nat_eq r 10) && not (nat_eq r 13) && not (nat_eq r 9))
    || nat_eq r 127
    || in_range 0xD800 0xDFFF r

abbrev or_nothing : Option Text → Text
or_nothing none = []
or_nothing (some t) = t

unfoldable pub clean_rune : (ℕ → Bool) → ℕ → Text
unfolding is_control is_emoji is_gsm_allowed
clean_rune letter r =
    if is_control r
    then []
    else if is_emoji r
    then r ∷ []
    else if is_gsm_allowed letter r
    then r ∷ []
    else or_nothing (lookup r replacement_map)

unfoldable pub clean_sms_message : (ℕ → Bool) → Text → Text
unfolding clean_rune
clean_sms_message letter [] = []
clean_sms_message letter (r ∷ input) = clean_rune letter r ++ clean_sms_message letter input
