-- ===== src/MmsServer/Outbound/Success.antt =====
-- The whole dialogue of sendMM4 with a peer that takes the message.
use gomsggw.ApiKeys.{trim_space}
use gomsggw.Base.{
  ℕ, suc, ◌≡◌, refl, ◌∙◌, List, [], ◌∷◌, ◌++◌, Option, some, String, Text, codes, true, false,
  nat_eq_iff, arith,
}
use gomsggw.Base.Strings.{has_prefix}
use gomsggw.Client.{Client}
use gomsggw.Message.{MsgFile, MsgQueueItem}
use gomsggw.MmsServer.Outbound.{
  ok, Wire, write, write_with, send_command, read_response, read_line, checked_response, is_error,
  expect_code, expect, ask, digit,
}
use gomsggw.MmsServer.Outbound.Content.{ContentEnv, mm4_headers, message_data}
use gomsggw.MmsServer.Outbound.Delivery.{
  mail_from, rcpt_to, send_recipients, send_message, send_files, deliver_message, send_mm4, routed,
  connected, without_plus,
}
use gomsggw.Numbers.{get_client}

-- A line that begins with the code, spaces aside.
abbrev pub Says : String → Text → Type 0
Says code line = has_prefix (codes code) (trim_space line) ≡ true

is_error-prefix :
    (a b c : ℕ) (r : Text)
    → has_prefix (a ∷ b ∷ c ∷ []) r ≡ true
    → is_error r ≡ is_error (a ∷ b ∷ c ∷ [])
unfolding has_prefix is_error
is_error-prefix a b c [] h = cc
is_error-prefix a b c (x ∷ []) h = ground (arith, h)
is_error-prefix a b c (x ∷ y ∷ []) h = ground (arith, h)
is_error-prefix a b c (x ∷ y ∷ z ∷ r) h =
    ground (arith, h, nat_eq_iff a x, nat_eq_iff b y, nat_eq_iff c z)

wire : List Text → List Text → ℕ → Wire
wire answers sent n = record { answers = answers; sent = sent; writable = n }

expect_lem :
    (code : String) (line : Text) (lines sent : List Text) (n : ℕ)
    → is_error (trim_space line) ≡ false
    → Says code line
    → expect code (wire (line ∷ lines) sent n) ≡ (ok tt, wire lines sent n)
unfolding expect read_response read_line checked_response expect_code wire
expect_lem code line lines sent n fine h = rw fine (rw h refl)

ask_lem :
    (cmd : Text) (code : String) (line : Text) (lines sent : List Text) (n : ℕ)
    → is_error (trim_space line) ≡ false
    → Says code line
    → ask cmd code (wire (line ∷ lines) sent (suc n))
      ≡ (ok tt, wire lines (sent ++ (cmd ++ codes "\r\n") ∷ []) n)
unfolding ask send_command write write_with wire
ask_lem cmd code line lines sent n fine h = expect_lem code line lines _ n fine h

-- What the peer answers when it takes a message.
pub record Takes (answers : List Text) : Type 0 where
  pub greeting : Text
  pub hello : Text
  pub sender : Text
  pub recipient : Text
  pub start_data : Text
  pub taken : Text
  pub bye : Text
  pub others : List Text
  pub in_order : answers ≡ greeting ∷ hello ∷ sender ∷ recipient ∷ start_data ∷ taken ∷ bye ∷ others
  pub says_220 : Says "220" greeting
  pub says_hello : Says "250" hello
  pub says_sender : Says "250" sender
  pub says_recipient : Says "250" recipient
  pub says_354 : Says "354" start_data
  pub says_taken : Says "250" taken
  pub says_221 : Says "221" bye

-- The lines and the text that the gateway writes for a message.
abbrev pub dialogue : ContentEnv → MsgQueueItem → List MsgFile → List Text
dialogue env item files =
    (codes "EHLO localhost" ++ codes "\r\n")
    ∷ (mail_from item.from ++ codes "\r\n")
    ∷ (rcpt_to item.to ++ codes "\r\n")
    ∷ (codes "DATA" ++ codes "\r\n")
    ∷ message_data env (mm4_headers env item) item.from (item.to ∷ []) files
    ∷ (codes "QUIT" ++ codes "\r\n")
    ∷ []

write_lem :
    (text : Text) (lines sent : List Text) (n : ℕ)
    → write text (wire lines sent (suc n)) ≡ (ok tt, wire lines (sent ++ text ∷ []) n)
unfolding write write_with wire
write_lem text lines sent n = refl

fine :
    (a b c : ℕ) (line : Text)
    → has_prefix (a ∷ b ∷ c ∷ []) (trim_space line) ≡ true
    → is_error (a ∷ b ∷ c ∷ []) ≡ false
    → is_error (trim_space line) ≡ false
fine a b c line h e = is_error-prefix a b c (trim_space line) h ∙ e

module _ (env : ContentEnv) (item : MsgQueueItem) (file : MsgFile) (files : List MsgFile) where
  deliver_message_taken :
      (answers : List Text) (n : ℕ) (t : Takes answers)
      → deliver_message env item
          (file ∷ files)
          (wire answers [] (suc (suc (suc (suc (suc (suc n)))))))
        ≡ (ok tt, wire t.others (dialogue env item (file ∷ files)) n)
  unfolding deliver_message send_files send_message send_recipients is_error digit
  deliver_message_taken answers n t = rw t.in_order (
      rw (expect_lem "220" t.greeting _ _ _ (fine _ _ _ t.greeting t.says_220 refl) t.says_220) (
        rw (ask_lem _ "250" t.hello _ _ _ (fine _ _ _ t.hello t.says_hello refl) t.says_hello) (
          rw
            (ask_lem (mail_from item.from) "250" t.sender _ _ _
              (fine _ _ _ t.sender t.says_sender refl) t.says_sender)
            (rw
              (ask_lem (rcpt_to item.to) "250" t.recipient _ _ _
                (fine _ _ _ t.recipient t.says_recipient refl) t.says_recipient)
              (rw
                (ask_lem _ "354" t.start_data _ _ _ (fine _ _ _ t.start_data t.says_354 refl)
                  t.says_354)
                (rw write_lem (
                  rw
                    (expect_lem "250" t.taken _ _ _ (fine _ _ _ t.taken t.says_taken refl)
                      t.says_taken)
                    (rw (ask_lem _ "221" t.bye _ _ _ (fine _ _ _ t.bye t.says_221 refl) t.says_221)
                      refl))))))))

-- Where the destination has a client, the dial opens a connection that takes six writes, and the
-- peer greets by 220, answers the commands by 250, 250, 250 and 354, the text by 250 and QUIT by
-- 221, sendMM4 succeeds, and it has written EHLO, MAIL, RCPT, DATA, the text and QUIT once each.
pub send_mm4_taken :
    (env : ContentEnv) (dial : Client → Option Wire) (clients : List Client) (item : MsgQueueItem)
    (file : MsgFile) (files : List MsgFile) (client : Client) (answers : List Text) (n : ℕ)
    → get_client (without_plus item.to) clients ≡ some client
    → dial client
      ≡ some
          (record { answers = answers; sent = []; writable = suc (suc (suc (suc (suc (suc n))))) })
    → Takes answers
    → send_mm4 env dial clients item (some (file ∷ files))
      ≡ (ok tt, dialogue env item (file ∷ files))
unfolding send_mm4 routed connected wire
send_mm4_taken env dial clients item file files client answers n found dialled t =
    rw found (rw dialled (rw (deliver_message_taken env item file files answers n t) refl))
