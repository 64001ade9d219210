-- ===== src/Coding.antt =====
-- smpp/coding: the choice of a data coding, the splitters, and their use in utils.go. A text is
-- its runes.
pub mod Split
pub mod Segments
use gomsggw.Base.{
  ℕ, zero, suc, ◌+◌, ◌-◌, ◌*◌, ◌/◌, ◌%◌, Bool, true, false, not, ◌&&◌, ◌||◌, List, [], ◌∷◌, ◌++◌,
  Option, none, some, String, Text, leb, ltb, nat_eq, length, if◌then◌else◌,
}

-- `RangeTable` with stride 1 throughout
abbrev pub RangeTable : Type 0
RangeTable = List (ℕ × ℕ)

-- `unicode.Is`
unfoldable pub is_in : RangeTable → ℕ → Bool
is_in [] r = false
is_in ((lo, hi) ∷ ranges) r = leb lo r && leb r hi || is_in ranges r

unfoldable pub all_in : RangeTable → Text → Bool
unfolding is_in
all_in table [] = true
all_in table (r ∷ rs) = is_in table r && all_in table rs

-- `DefaultAlphabet` of gsm7bit/table.go
abbrev pub default_alphabet : RangeTable
default_alphabet =
    (0x000a, 0x000a)
    ∷ (0x000c, 0x000d)
    ∷ (0x0020, 0x005f)
    ∷ (0x0061, 0x007e)
    ∷ (0x00a0, 0x00a1)
    ∷ (0x00a3, 0x00a5)
    ∷ (0x00a7, 0x00a7)
    ∷ (0x00bf, 0x00bf)
    ∷ (0x00c4, 0x00c6)
    ∷ (0x00c9, 0x00c9)
    ∷ (0x00d1, 0x00d1)
    ∷ (0x00d6, 0x00d6)
    ∷ (0x00d8, 0x00d8)
    ∷ (0x00dc, 0x00dc)
    ∷ (0x00df, 0x00e0)
    ∷ (0x00e4, 0x00e9)
    ∷ (0x00ec, 0x00ec)
    ∷ (0x00f1, 0x00f2)
    ∷ (0x00f6, 0x00f6)
    ∷ (0x00f8, 0x00f9)
    ∷ (0x00fc, 0x00fc)
    ∷ (0x0393, 0x0394)
    ∷ (0x0398, 0x0398)
    ∷ (0x039b, 0x039b)
    ∷ (0x039e, 0x039e)
    ∷ (0x03a0, 0x03a0)
    ∷ (0x03a3, 0x03a3)
    ∷ (0x03a6, 0x03a6)
    ∷ (0x03a8, 0x03a9)
    ∷ (0x20ac, 0x20ac)
    ∷ []

abbrev pub gsm7bit_coding : ℕ
gsm7bit_coding = 0

abbrev pub ascii_coding : ℕ
ascii_coding = 1

abbrev pub latin1_coding : ℕ
latin1_coding = 3

abbrev pub ucs2_coding : ℕ
ucs2_coding = 8

-- `GSM7BitCoding.Validate`
unfoldable pub validate_gsm7 : Text → Bool
unfolding all_in
validate_gsm7 = all_in default_alphabet

unfoldable pub best_safe_coding : Text → ℕ
unfolding validate_gsm7
best_safe_coding input = if validate_gsm7 input then gsm7bit_coding else ucs2_coding

-- The cost of a rune in bits.
abbrev pub Splitter : Type 0
Splitter = ℕ → ℕ

unfoldable pub seven_bit_splitter : Splitter
seven_bit_splitter r = 7

unfoldable pub one_byte_splitter : Splitter
one_byte_splitter r = 8

unfoldable pub multibyte_splitter : Splitter
multibyte_splitter r = if ltb r 0x7f then 8 else 16

unfoldable pub utf16_splitter : Splitter
utf16_splitter r = if leb r 0xd7ff || leb 0xe000 r && leb r 0xffff then 16 else 32

unfoldable pub bits : Splitter → Text → ℕ
bits cost [] = 0
bits cost (r ∷ rs) = cost r + bits cost rs

-- `Splitter.Len`: bytes, rounded up
unfoldable pub splitter_len : Splitter → Text → ℕ
unfolding bits
splitter_len cost input =
    let n = bits cost input in (if not (nat_eq (n % 8) 0) then n + (8 - n % 8) else n) / 8

-- The loop of `Split`: `segment` is `points[start:i]` and `rest` is `points[i:]`. Where a rune does
-- not fit, the segment is closed and the rune is read again. `none` means that the fuel ran out.
unfoldable pub split_loop : ℕ → Splitter → ℕ → Text → ℕ → Text → Option (List Text)
split_loop zero cost limit segment len rest = none
split_loop (suc fuel) cost limit segment len [] = some (if ltb 0 len then segment ∷ [] else [])
split_loop (suc fuel) cost limit segment len (r ∷ rest) = elim (ltb limit (len + cost r)) [
  | true ↦ elim (split_loop fuel cost limit [] 0 (r ∷ rest)) [
    | none ↦ none
    | some segments ↦ some (segment ∷ segments)
  ]
  | false ↦ split_loop fuel cost limit (segment ++ (r ∷ [])) (len + cost r) rest
]

-- A rune is read twice at most, and the end once.
unfoldable pub split : Splitter → Text → ℕ → Option (List Text)
unfolding split_loop
split cost input limit = split_loop (2 * length input + 1) cost (limit * 8) [] 0 input

abbrev pub single_limit_bytes : ℕ
single_limit_bytes = 140

abbrev pub multipart_limit_bytes : ℕ
multipart_limit_bytes = 140 - 6

unfoldable pub pick_splitter : ℕ → Splitter
pick_splitter data_coding =
    if nat_eq data_coding 8
    then utf16_splitter
    else if nat_eq data_coding 1
    then one_byte_splitter
    else seven_bit_splitter

unfoldable pub split_sms : Text → ℕ → Option (List Text)
unfolding splitter_len split
split_sms msg data_coding =
    if leb (splitter_len (pick_splitter data_coding) msg) single_limit_bytes
    then some (msg ∷ [])
    else split (pick_splitter data_coding) msg multipart_limit_bytes

-- `GetSMSEncoding` of utils.go
unfoldable pub get_sms_encoding : Text → String
unfolding best_safe_coding
get_sms_encoding message =
    let best = best_safe_coding message in
    if nat_eq best gsm7bit_coding
    then "gsm7"
    else if nat_eq best ucs2_coding
    then "ucs2"
    else if nat_eq best ascii_coding
    then "ascii"
    else if nat_eq best latin1_coding
    then "latin1"
    else "gsm7"

abbrev pub count_segments : Option (List Text) → ℕ
count_segments none = 0
count_segments (some segments) = length segments

-- `GetSMSSegmentCount` of utils.go
unfoldable pub get_sms_segment_count : Text → ℕ
unfolding best_safe_coding split_sms
get_sms_segment_count [] = 0
get_sms_segment_count (r ∷ rs) = count_segments (split_sms (r ∷ rs) (best_safe_coding (r ∷ rs)))

-- The bytes of a rune in UTF-8, and of a text, `len([]byte(s))`.
unfoldable pub utf8_len : Text → ℕ
utf8_len [] = 0
utf8_len (r ∷ rs) =
    (if ltb r 0x80 then 1 else if ltb r 0x800 then 2 else if ltb r 0x1_0000 then 3 else 4)
    + utf8_len rs
