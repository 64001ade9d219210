-- ===== src/MmsServer/Sessions.antt =====
-- handleSession of mms_server.go: the loop over the lines of a connection.
use gomsggw.ApiKeys.{trim_space}
use gomsggw.Base.{ℕ, zero, suc, List, [], ◌∷◌, none, some, Text, text_eq, if◌then◌else◌, length}
use gomsggw.MmsServer.{Mm4Env, Session, SessionError, bad_read}
use gomsggw.MmsServer.Commands.{Handled, handle_command}

-- How handleSession returns, and the session then; `out_of_fuel` is none of the code's.
pub data Ended : Type 0 where
  closed : Session → Ended
  failed : SessionError → Session → Ended
  out_of_fuel : Ended

unfoldable pub stream_end : Mm4Env → Session → Ended
stream_end env s = elim env.stream_error [ none ↦ closed s | some e ↦ failed (bad_read e) s ]

-- what the loop does after a line
unfoldable pub after_command : (Session → Ended) → Handled → Ended
after_command more (s, none) = more s
after_command more (s, some e) = failed e s

unfoldable pub session_turn : Mm4Env → (Session → Ended) → List Text → Session → Ended
unfolding stream_end after_command
session_turn env more [] s = stream_end env s
session_turn env more (line ∷ lines) s =
    let taken = record s { input = lines } in
    if text_eq (trim_space line) []
    then more taken
    else after_command more (handle_command env (trim_space line) taken)

-- A turn for each line, and one for the end of the stream.
unfoldable pub session_loop : ℕ → Mm4Env → Session → Ended
unfolding session_turn
session_loop zero env s = out_of_fuel
session_loop (suc fuel) env s = session_turn env (session_loop fuel env) s.input s

unfoldable pub handle_session : Mm4Env → Session → Ended
unfolding session_loop
handle_session env s = session_loop (suc (length s.input)) env s
