-- ===== src/MmsServer/Answers.antt =====
-- The last replies of a session of mms_server.go that the peer ends by QUIT.
use gomsggw.ApiKeys.{trim_space}
use gomsggw.Base.{
  ℕ, ◌≡◌, refl, ◌∙◌, ap, List, [], ◌∷◌, ◌++◌, Option, none, some, String, Text, codes, text_eq,
  arith, length, false,
}
use gomsggw.MmsServer.{Mm4Env, Reply, says, Session, write_response, client_disconnected}
use gomsggw.MmsServer.Commands.{handle_command, dispatch}
use gomsggw.MmsServer.Connections.{Connected, Mm4Server, finish_session, leave}
use gomsggw.MmsServer.Input.{to_upper, first_word, after_word}
use gomsggw.MmsServer.Sessions.{
  Ended, failed, handle_session, session_loop, session_turn, after_command,
}
use mathlib.Core.List.{append_assoc}

dispatch-quit :
    (env : Mm4Env) (cmd arg : Text) (s : Session)
    → cmd ≡ codes "QUIT"
    → dispatch env cmd arg s ≡ (write_response (says 221 "Bye") s, some client_disconnected)
unfolding dispatch text_eq
dispatch-quit env cmd arg s e = rw e refl

not_blank :
    (env : Mm4Env) (s : Text) → to_upper env (first_word s) ≡ codes "QUIT" → text_eq s [] ≡ false
unfolding text_eq to_upper first_word
not_blank env [] e = ground (arith, e)
not_blank env (a ∷ s) e = refl

turn-quit :
    (env : Mm4Env) (more : Session → Ended) (line : Text) (lines : List Text) (s : Session)
    → to_upper env (first_word (trim_space line)) ≡ codes "QUIT"
    → session_turn env more (line ∷ lines) s
      ≡ failed client_disconnected (write_response (says 221 "Bye") (record s { input = lines }))
unfolding session_turn handle_command
turn-quit env more line lines s e = rw (not_blank env (trim_space line) e) (
    rw (dispatch-quit env _ (after_word (trim_space line)) (record s { input = lines }) e)
      (unfold after_command in refl))

abbrev pub replies_of : Connected → Option (List Reply)
replies_of none = none
replies_of (some out) = some out.0

-- A session whose next line is QUIT ends there, and its last two replies are 221 and 451.
pub handle_session-quit :
    (env : Mm4Env) (ip id : String) (ref : ℕ) (srv : Mm4Server) (s : Session) (line : Text)
    (lines : List Text)
    → s.input ≡ line ∷ lines
    → to_upper env (first_word (trim_space line)) ≡ codes "QUIT"
    → replies_of (finish_session ip id ref srv (handle_session env s))
      ≡ some (s.output ++ says 221 "Bye" ∷ says 451 "Internal server error" ∷ [])
unfolding handle_session session_loop
handle_session-quit env ip id ref srv s line lines here e =
    let more = session_loop (length s.input) env in
    let ended : handle_session env s
        ≡ failed client_disconnected
            (write_response (says 221 "Bye") (record s { input = lines })) =
      ap (λ l. session_turn env more l s) here ∙ turn-quit env more line lines s e in
    ap (λ r. replies_of (finish_session ip id ref srv r)) ended
    ∙ unfold finish_session leave write_response in
      ap some (append_assoc s.output (says 221 "Bye" ∷ []) (says 451 "Internal server error" ∷ []))
