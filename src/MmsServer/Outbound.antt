-- ===== src/MmsServer/Outbound.antt =====
-- sendMM4 of mms_server.go: the gateway as the client of a client's MM4 server. The peer is a list
-- of the lines that it answers, each with the first of the next reads.
pub mod Content
pub mod Delivery
pub mod Lines
pub mod Success
use gomsggw.ApiKeys.{trim_space}
use gomsggw.Base.{
  ℕ, zero, suc, ◌+◌, ◌-◌, ◌*◌, List, [], ◌∷◌, ◌++◌, Option, none, some, String, Text, codes,
  text_eq, leb, length, if◌then◌else◌, Bool, true, false, ◌&&◌, not, nat_eq,
}
use gomsggw.Base.Strings.{has_prefix, is_digit}

pub data SendError : Type 0 where
  files_are_nil no_files : SendError
  no_client unreachable : SendError
  read_failed write_failed : SendError
  server_error : Text → SendError
  -- an answer that does not begin with the code
  unexpected : String → Text → SendError

pub data SendResult {ℓ} (A : Type ℓ) : Type ℓ where
  ok : A → SendResult A
  err : SendError → SendResult A

pub record Wire : Type 0 where
  -- the answers that are not read yet; after the last one the read fails
  pub answers : List Text
  -- what was written
  pub sent : List Text
  -- the writes that work before the connection breaks
  pub writable : ℕ

abbrev pub Dialogue {ℓ} : Type ℓ → Type ℓ
Dialogue A = Wire → SendResult A × Wire

abbrev pub then_after {ℓ κ} :
    {A : Type ℓ} {B : Type κ} → SendResult A × Wire → (A → Dialogue B) → SendResult B × Wire
then_after (ok a, w) f = f a w
then_after (err e, w) f = (err e, w)

infixl 5 ◌>>=◌ ◌>>◌
abbrev pub ◌>>=◌ {ℓ κ} : {A : Type ℓ} {B : Type κ} → Dialogue A → (A → Dialogue B) → Dialogue B
m >>= f = λ w. then_after (m w) f

abbrev pub ◌>>◌ {ℓ κ} : {A : Type ℓ} {B : Type κ} → Dialogue A → Dialogue B → Dialogue B
m >> k = m >>= λ _. k

abbrev pub fail {ℓ} : {A : Type ℓ} → SendError → Dialogue A
fail e w = (err e, w)

abbrev pub pure {ℓ} : {A : Type ℓ} → A → Dialogue A
pure a w = (ok a, w)

unfoldable pub write_with : ℕ → Text → Dialogue (Unit {0})
write_with zero text w = (err write_failed, w)
write_with (suc n) text w = (ok tt, record w { sent = w.sent ++ text ∷ []; writable = n })

-- `WriteString` and `Flush`
unfoldable pub write : Text → Dialogue (Unit {0})
unfolding write_with
write text w = write_with w.writable text w

unfoldable pub send_command : Text → Dialogue (Unit {0})
unfolding write
send_command cmd = write (cmd ++ codes "\r\n")

unfoldable pub digit : ℕ → ℕ
digit c = c - b'0'

-- `strconv.Atoi(response[:3])` is 400 or more; with a sign it is less, and no number is no error.
unfoldable pub is_error : Text → Bool
unfolding digit
is_error (a ∷ b ∷ c ∷ rest) =
    is_digit a && is_digit b && is_digit c && leb 400 (100 * digit a + 10 * digit b + digit c)
is_error _ = false

unfoldable pub checked_response : Text → Dialogue Text
unfolding is_error
checked_response response w =
    if is_error response then (err (server_error response), w) else (ok response, w)

unfoldable pub read_line : List Text → Dialogue Text
unfolding checked_response
read_line [] w = (err read_failed, w)
read_line (line ∷ lines) w = checked_response (trim_space line) (record w { answers = lines })

unfoldable pub read_response : Dialogue Text
unfolding read_line
read_response w = read_line w.answers w

unfoldable pub expect_code : String → Text → Dialogue (Unit {0})
expect_code code response =
    if has_prefix (codes code) response then pure tt else fail (unexpected code response)

-- readResponse with the test of the answer's beginning
unfoldable pub expect : String → Dialogue (Unit {0})
unfolding expect_code
expect code = do response ← read_response; expect_code code response

-- A command, and the answer that it wants.
unfoldable pub ask : Text → String → Dialogue (Unit {0})
ask cmd code = do send_command cmd; expect code
