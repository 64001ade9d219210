-- ===== src/MmsServer/Sequence.antt =====
-- Rules for handleCommand and handleSession of mms_server.go: a property of the session that each
-- case of the switch keeps.
use gomsggw.ApiKeys.{trim_space}
use gomsggw.Base.{
  ℕ, zero, suc, ◌≤◌, ◌<◌, List, [], ◌∷◌, none, some, Text, text_eq, length, if_cases, Bool-cases,
  inl, inr, arith,
}
use gomsggw.MmsServer.{
  Mm4Env, Session, HeaderResult, fields, refused, says, not_implemented, client_disconnected,
  write_response, bad_read,
}
use gomsggw.MmsServer.Commands.{
  Handled, handle_command, dispatch, mail_command, rcpt_command, data_command,
}
use gomsggw.MmsServer.Sessions.{
  Ended, closed, failed, out_of_fuel, handle_session, session_loop, session_turn, stream_end,
  after_command,
}

-- the lines that `ReadMIMEHeader` leaves
abbrev pub left_of : HeaderResult → List Text
left_of (fields headers rest) = rest
left_of (refused e rest) = rest

-- `ReadMIMEHeader` reads lines and puts none back.
abbrev pub Consumes : Mm4Env → Type 0
Consumes env = (lines : List Text) → length (left_of (env.read_mime_header lines)) ≤ length lines

-- handleSession returns, and the session then has the property.
abbrev pub Ends : (Session → Type 0) → Ended → Type 0
Ends P (closed s) = P s
Ends P (failed e s) = P s
Ends P out_of_fuel = ⊥

module _ (env : Mm4Env) (P : Handled → Type 0) (arg : Text) (s : Session) where
  -- A property of every case of the switch is one of the command.
  pub dispatch_cases :
      (cmd : Text)
      → P (write_response (says 250 "Hello") (record s { state = 1 }), none)
      → P (mail_command env arg s, none)
      → P (rcpt_command env arg s, none)
      → P (data_command env s, none)
      → P (write_response (says 250 "OK") (record s { state = 1 }), none)
      → P (write_response (says 250 "OK") s, none)
      → P (write_response (says 221 "Bye") s, some client_disconnected)
      → ((c : Text) → P (write_response (not_implemented c) s, none))
      → P (dispatch env cmd arg s)
  unfolding dispatch
  dispatch_cases cmd helo mail rcpt text reset noop quit other = if_cases P _ helo (
      if_cases P _ mail (
        if_cases P _ rcpt (
          if_cases P _ text
            (if_cases P _ reset (if_cases P _ noop (if_cases P _ quit (other cmd)))))))

module _ (env : Mm4Env) (P : Session → Type 0)
    (taken : (lines : List Text) (s : Session) → P s → P (record s { input = lines }))
    (keep : (line : Text) (s : Session)
      → P s
      → P (handle_command env line s).0
        × (length (handle_command env line s).0.input ≤ length s.input)) where
  after_command-Ends :
      (more : Session → Ended) (h : Handled)
      → P h.0
      → (P h.0 → Ends P (more h.0))
      → Ends P (after_command more h)
  unfolding after_command
  after_command-Ends more (s, none) p next = next p
  after_command-Ends more (s, some e) p next = p

  stream_end-Ends : (s : Session) → P s → Ends P (stream_end env s)
  unfolding stream_end
  stream_end-Ends s p =
      elim env.stream_error
        as (λ o. Ends P (elim o [ none ↦ closed s | some e ↦ failed (bad_read e) s ])) [
          | none ↦ p
          | some e ↦ p
        ]

  session_turn-Ends :
      (more : Session → Ended) (lines : List Text) (s : Session)
      → ((t : Session) → length t.input < length lines → P t → Ends P (more t))
      → P s
      → Ends P (session_turn env more lines s)
  unfolding session_turn
  session_turn-Ends more [] s next p = stream_end-Ends s p
  session_turn-Ends more (line ∷ lines) s next p =
      let taken_in = taken lines s p in
      let kept = keep (trim_space line) (record s { input = lines }) taken_in in
      let handled = handle_command env (trim_space line) (record s { input = lines }) in
      elim (Bool-cases (text_eq (trim_space line) [])) [
        | inl e ↦ rw e (next (record s { input = lines }) (omega arith) taken_in)
        | inr e ↦
            rw e (after_command-Ends more handled kept.0 (next handled.0 (omega (arith, kept.1))))
      ]

  session_loop-Ends :
      (fuel : ℕ) (s : Session) → length s.input < fuel → P s → Ends P (session_loop fuel env s)
  unfolding session_loop
  session_loop-Ends zero s h p = absurd (omega arith)
  session_loop-Ends (suc fuel) s h p =
      session_turn-Ends (session_loop fuel env) s.input s
        (λ t k. session_loop-Ends fuel t (omega (arith, h, k))) p

  -- A property that each command keeps holds at the end of every session.
  pub handle_session-Ends : (s : Session) → P s → Ends P (handle_session env s)
  unfolding handle_session
  handle_session-Ends s = session_loop-Ends (suc (length s.input)) s (omega arith)
