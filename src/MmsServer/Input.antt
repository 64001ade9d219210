-- ===== src/MmsServer/Input.antt =====
-- What mms_server.go reads from a connection: a command's words, and the text after DATA.
use gomsggw.Base.{
  ℕ, ◌+◌, ◌-◌, List, [], ◌∷◌, ◌++◌, Option, none, some, Text, nat_eq, leb, ltb, text_eq, ◌&&◌,
  if◌then◌else◌,
}
use gomsggw.MmsServer.{Headers, Mm4Env}

-- `strings.SplitN(line, " ", 2)[0]`
unfoldable pub first_word : Text → Text
first_word [] = []
first_word (a ∷ s) = let rest = first_word s in if nat_eq a b' ' then [] else a ∷ rest

-- `parts[1]`, or nothing
unfoldable pub after_word : Text → Text
after_word [] = []
after_word (a ∷ s) = let rest = after_word s in if nat_eq a b' ' then s else rest

unfoldable pub upper : Mm4Env → ℕ → ℕ
upper env c =
    if leb b'a' c && leb c b'z' then c - 32 else if ltb c 128 then c else env.upper_other c

-- `strings.ToUpper`
unfoldable pub to_upper : Mm4Env → Text → Text
unfolding upper
to_upper env [] = []
to_upper env (a ∷ s) = upper env a ∷ to_upper env s

unfoldable pub lower_ascii : Text → Text
lower_ascii [] = []
lower_ascii (a ∷ s) = (if leb b'A' a && leb a b'Z' then a + 32 else a) ∷ lower_ascii s

-- `Headers.Get`: the first field of the name, in the letters of either case
unfoldable pub header_get : Text → Headers → Text
unfolding lower_ascii
header_get name [] = []
header_get name (field ∷ fields) =
    let later = header_get name fields in
    if text_eq (lower_ascii field.0) (lower_ascii name) then field.1 else later

-- `strings.Trim(s, "\"")`
trim_quotes_left : Text → Text
trim_quotes_left [] = []
trim_quotes_left (a ∷ s) = let rest = trim_quotes_left s in if nat_eq a b'"' then rest else a ∷ s

trim_quotes_right : Text → Text
trim_quotes_right [] = []
trim_quotes_right (a ∷ s) =
    let rest = trim_quotes_right s in if nat_eq a b'"' && text_eq rest [] then [] else a ∷ rest

unfoldable pub trim_quotes : Text → Text
unfolding trim_quotes_left trim_quotes_right
trim_quotes s = trim_quotes_right (trim_quotes_left s)

-- the carriage return before the end of a line
unfoldable pub without_cr : Text → Text
without_cr [] = []
without_cr (a ∷ s) =
    let rest = without_cr s in if nat_eq a b'\r' && text_eq s [] then [] else a ∷ rest

-- The first full stop of a line is not part of the text.
unfoldable pub without_dot : Text → Text
without_dot [] = []
without_dot (a ∷ s) = if nat_eq a b'.' then s else a ∷ s

-- The text that `tp.DotReader` gives and the lines after it; `none` if the stream ends first.
unfoldable pub dot_body : List Text → Option (Text × List Text)
unfolding without_cr without_dot
dot_body [] = none
dot_body (line ∷ lines) =
    let later : Option (Text × List Text) = elim (dot_body lines) [
      | none ↦ none
      | some (text, rest) ↦ some (without_dot (without_cr line) ++ b'\n' ∷ text, rest)
    ] in
    if text_eq (without_cr line) (b'.' ∷ []) then some ([], lines) else later
