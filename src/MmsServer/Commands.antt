-- ===== src/MmsServer/Commands.antt =====
-- handleCommand of mms_server.go and the handlers of MAIL, RCPT and DATA.
use gomsggw.ApiKeys.{trim_space}
use gomsggw.Base.{
  ℕ, List, [], ◌∷◌, ◌++◌, Option, none, some, String, Text, codes, text_eq, ltb, ◌||◌,
  if◌then◌else◌,
}
use gomsggw.Base.Strings.{has_prefix, drop}
use gomsggw.MmsServer.{
  Mm4Env, Session, SessionError, syntax_mail, syntax_rcpt, bad_headers, bad_body,
  client_disconnected, says, failure, not_implemented, HeaderResult, fields, refused,
  write_response,
}
use gomsggw.MmsServer.Input.{first_word, after_word, to_upper, dot_body}
use gomsggw.MmsServer.Mime.{Result, ok, err, handle_mm4_message}

-- A handler's effect on the session, and its error.
abbrev pub Handled : Type 0
Handled = Session × Option SessionError

unfoldable pub handle_mail : Mm4Env → Text → Session → Handled
handle_mail env arg s =
    if has_prefix (codes "FROM:") (to_upper env arg)
    then (record s { from = trim_space (drop 5 arg) }, none)
    else (s, some syntax_mail)

unfoldable pub handle_rcpt : Mm4Env → Text → Session → Handled
handle_rcpt env arg s =
    if has_prefix (codes "TO:") (to_upper env arg)
    then (record s { to = s.to ++ trim_space (drop 3 arg) ∷ [] }, none)
    else (s, some syntax_rcpt)

-- an error of handleMM4Message leaves the headers and the text in the session
unfoldable pub or_kept : Session → Result Session → Handled
or_kept s (ok s') = (s', none)
or_kept s (err e) = (s, some e)

-- An end of the stream within the text is an error, EOF too.
abbrev pub body_error : Option String → String
body_error none = "unexpected EOF"
body_error (some e) = e

-- The text is read to a line with a full stop alone.
unfoldable pub read_text : Mm4Env → Session → Option (Text × List Text) → Handled
unfolding or_kept
read_text env s none = (record s { input = [] }, some (bad_body (body_error env.stream_error)))
read_text env s (some (text, rest)) =
    let filled = record s { body = text; input = rest } in
    or_kept filled (handle_mm4_message env filled)

unfoldable pub read_headers : Mm4Env → Session → HeaderResult → Handled
unfolding read_text
read_headers env s (refused e rest) = (record s { input = rest }, some (bad_headers e))
read_headers env s (fields headers rest) =
    read_text env (record s { headers = headers; input = rest }) (dot_body rest)

unfoldable pub handle_data : Mm4Env → Session → Handled
unfolding read_headers
handle_data env s = read_headers env s (env.read_mime_header s.input)

-- A handler's error is a reply; without one the session moves to a state.
unfoldable pub answered_with : ℕ → ℕ → String → Handled → Session
answered_with refusal state answer (s, some e) = write_response (failure refusal e) s
answered_with refusal state answer (s, none) =
    write_response (says 250 answer) (record s { state = state })

unfoldable pub mail_command : Mm4Env → Text → Session → Session
unfolding handle_mail answered_with
mail_command env arg s =
    if ltb s.state 1
    then write_response (says 503 "Bad sequence of commands: Send HELO/EHLO first") s
    else answered_with 550 2 "OK" (handle_mail env arg s)

unfoldable pub rcpt_command : Mm4Env → Text → Session → Session
unfolding handle_rcpt answered_with
rcpt_command env arg s =
    if ltb s.state 2
    then write_response (says 503 "Bad sequence of commands: Send MAIL FROM first") s
    else answered_with 550 3 "OK" (handle_rcpt env arg s)

unfoldable pub data_command : Mm4Env → Session → Session
unfolding handle_data answered_with
data_command env s =
    if ltb s.state 3
    then write_response (says 503 "Bad sequence of commands: Send RCPT TO first") s
    else answered_with 554 1 "Message queued for processing"
        (handle_data env (write_response (says 354 "End data with <CR><LF>.<CR><LF>") s))

-- The cases of the switch; only QUIT ends the session.
unfoldable pub dispatch : Mm4Env → Text → Text → Session → Handled
unfolding mail_command rcpt_command data_command
dispatch env cmd arg s =
    if text_eq cmd (codes "HELO") || text_eq cmd (codes "EHLO")
    then (write_response (says 250 "Hello") (record s { state = 1 }), none)
    else if text_eq cmd (codes "MAIL")
    then (mail_command env arg s, none)
    else if text_eq cmd (codes "RCPT")
    then (rcpt_command env arg s, none)
    else if text_eq cmd (codes "DATA")
    then (data_command env s, none)
    else if text_eq cmd (codes "RSET")
    then (write_response (says 250 "OK") (record s { state = 1 }), none)
    else if text_eq cmd (codes "NOOP")
    then (write_response (says 250 "OK") s, none)
    else if text_eq cmd (codes "QUIT")
    then (write_response (says 221 "Bye") s, some client_disconnected)
    else (write_response (not_implemented cmd) s, none)

unfoldable pub handle_command : Mm4Env → Text → Session → Handled
unfolding dispatch
handle_command env line s = dispatch env (to_upper env (first_word line)) (after_word line) s
