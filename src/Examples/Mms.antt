-- ===== src/Examples/Mms.antt =====
-- Examples for the MM4 server and client of mms_server.go.
use gomsggw.Base.{
  ◌≤◌, ◌≡◌, ◌≢◌, refl, List, [], ◌∷◌, ◌++◌, none, some, String, Text, codes, length, text_eq,
  nat_eq, ==_iff, if◌then◌else◌, Bool-cases, inl, inr, arith, Eq_ℕ, Eq_String,
}
use gomsggw.Base.Map.{lookup, insert, delete}
use gomsggw.Client.{Client}
use gomsggw.MmsServer.{Mm4Env, HeaderResult, fields, refused, Reply, says, write_response, media}
use gomsggw.MmsServer.Answers.{replies_of, handle_session-quit}
use gomsggw.ApiKeys.{trim_left, trim_right, trim_space}
use gomsggw.Base.Strings.{has_prefix}
use gomsggw.MmsServer.Input.{
  first_word, after_word, to_upper, upper, header_get, dot_body, without_cr, without_dot,
  lower_ascii,
}
use gomsggw.MmsServer.Mime.{
  handle_mm4_message, with_headers, with_files, mm4_message, parse_mime_parts, files_of, missing_of,
}
use gomsggw.MmsServer.Commands.{
  handle_command, dispatch, mail_command, rcpt_command, data_command, handle_mail, handle_rcpt,
  answered_with, or_kept, handle_data, read_headers, read_text,
}
use gomsggw.MmsServer.Connections.{
  leave, end_session, remove_session, cleanup_client_state, if_idle, session_count, add_session,
  get_or_create_client_state, found_or_new, new_state, Mm4Server, Connection, handle_connection,
  connect, accept, get_client_by_ip, finish_session, new_session, object, object_of,
}
use gomsggw.MmsServer.Sessions.{
  handle_session, session_loop, session_turn, stream_end, after_command,
}
use gomsggw.MmsServer.Ends.{Served, handle_connection-Served}
use gomsggw.MmsServer.Races.{overtaken, overtaken-untracked}
use gomsggw.MmsServer.Sequence.{Consumes, left_of}
use gomsggw.MmsServer.Tracking.{Tracked, done, more, removes, cleans}
use gomsggw.MmsServer.Tracked.{Steps-Tracked}
use gomsggw.Examples.{alice, client_of}

name_of : Text → Text
name_of [] = []
name_of (a ∷ s) = let rest = name_of s in if nat_eq a b':' then [] else a ∷ rest

value_of : Text → Text
value_of [] = []
value_of (a ∷ s) = let rest = value_of s in if nat_eq a b' ' then s else rest

with_field : Text → HeaderResult → HeaderResult
unfolding name_of value_of
with_field line (fields headers rest) = fields ((name_of line, value_of line) ∷ headers) rest
with_field line (refused e rest) = refused e rest

-- Fields of the form `Name: value` up to the first empty line.
read_fields : List Text → HeaderResult
unfolding with_field
read_fields [] = refused "EOF" []
read_fields (line ∷ lines) =
    let later = with_field line (read_fields lines) in
    if text_eq line [] then fields [] lines else later

mm4_env : Mm4Env
unfolding read_fields
mm4_env = record {
  read_mime_header = read_fields;
  parse_media_type = λ t. media t [];
  multipart = λ boundary content. [];
  upper_other = λ c. c;
  stream_error = none;
}

with_field-left : (line : Text) (r : HeaderResult) → left_of (with_field line r) ≡ left_of r
unfolding with_field
with_field-left line (fields headers rest) = refl
with_field-left line (refused e rest) = refl

read_fields-Consumes : (lines : List Text) → length (left_of (read_fields lines)) ≤ length lines
unfolding read_fields
read_fields-Consumes [] = omega arith
read_fields-Consumes (line ∷ lines) = elim (Bool-cases (text_eq line [])) [
  | inl e ↦ rw e (omega arith)
  | inr e ↦
      rw (e, with_field-left line (read_fields lines)) (omega (arith, read_fields-Consumes lines))
]

mm4_env-Consumes : Consumes mm4_env
unfolding mm4_env
mm4_env-Consumes = read_fields-Consumes

one_message : List Text
one_message =
    codes "EHLO localhost"
    ∷ codes "MAIL FROM:<12505550100>"
    ∷ codes "RCPT TO:<12505550199>"
    ∷ codes "DATA"
    ∷ codes "X-Mms-3GPP-MMS-Version: 6.10.0"
    ∷ codes "X-Mms-message-Type: MM4_forward.REQ"
    ∷ codes "X-Mms-message-ID: <log@host>"
    ∷ codes "X-Mms-Transaction-ID: log"
    ∷ codes "From: 12505550100"
    ∷ codes "To: 12505550199"
    ∷ codes "Content-Type: text/plain"
    ∷ []
    ∷ codes "hello"
    ∷ codes "."
    ∷ []

peer : Client
peer = record (client_of 1 alice 0) { address = "10.0.0.7" }

connection : Connection
unfolding one_message
connection = record { ip = some "10.0.0.7"; lines = one_message; session_id = "s1"; now = 5 }

server : Mm4Server
server = record { client_states = []; objects = []; fresh = 0; media_transcode = [] }

handle_connection-Served_example :
    (out : List Reply × Mm4Server) × (handle_connection mm4_env
        (λ ip. ip)
        (peer ∷ [])
        connection
        server
      ≡ some out)
    × Served "10.0.0.7" alice server out
unfolding connection peer server get_client_by_ip lookup
handle_connection-Served_example =
    handle_connection-Served mm4_env (λ ip. ip) (peer ∷ []) connection server "10.0.0.7" peer
      mm4_env-Consumes refl refl refl

replies_of_one_message :
    replies_of (handle_connection mm4_env (λ ip. ip) (peer ∷ []) connection server)
    ≡ some (
        says 220 "localhost SMTP server ready"
        ∷ says 250 "Hello"
        ∷ says 250 "OK"
        ∷ says 250 "OK"
        ∷ says 354 "End data with <CR><LF>.<CR><LF>"
        ∷ says 250 "Message queued for processing"
        ∷ [])
unfolding mm4_env read_fields with_field name_of value_of connection peer server one_message
    handle_connection connect accept get_client_by_ip finish_session leave end_session
    remove_session cleanup_client_state if_idle session_count object object_of add_session
    get_or_create_client_state found_or_new new_state new_session write_response handle_session
    session_loop session_turn stream_end after_command handle_command dispatch mail_command
    rcpt_command data_command handle_mail handle_rcpt answered_with or_kept handle_data read_headers
    read_text handle_mm4_message with_headers with_files mm4_message parse_mime_parts files_of
    missing_of header_get dot_body without_cr without_dot first_word after_word to_upper upper
    lower_ascii trim_space trim_left trim_right has_prefix lookup insert delete text_eq
replies_of_one_message = refl

handle_session-quit_example :
    replies_of (
      finish_session "10.0.0.7" "s1" 0 server
        (handle_session mm4_env (new_session (codes "quit" ∷ []) peer "s1")))
    ≡ some (
        (new_session (codes "quit" ∷ []) peer "s1").output
        ++ says 221 "Bye" ∷ says 451 "Internal server error" ∷ [])
unfolding new_session mm4_env trim_space trim_left trim_right first_word to_upper
handle_session-quit_example =
    handle_session-quit mm4_env "10.0.0.7" "s1" 0 server (new_session (codes "quit" ∷ []) peer "s1")
      (codes "quit") [] refl refl

overtaken-untracked_example :
    (lookup "10.0.0.7" (overtaken 5 "10.0.0.7" alice "s1" "s2" server).0.client_states ≡ none)
    × (lookup "s2"
          (object
            (overtaken 5 "10.0.0.7" alice "s1" "s2" server).1
            (overtaken 5 "10.0.0.7" alice "s1" "s2" server).0).active_sessions
        ≡ some tt)
unfolding server lookup
overtaken-untracked_example = overtaken-untracked 5 "10.0.0.7" alice "s1" "s2" server refl

-- The session "s2" joins the state of "s1", which then leaves and cleans up.
one_session : Mm4Server
one_session = add_session "s1" 0 (get_or_create_client_state 5 "10.0.0.7" alice server).0

two_sessions : Mm4Server
two_sessions = add_session "s2" 0 one_session

two_sessions-Tracked : Tracked "s2" "10.0.0.7" 0 two_sessions
unfolding two_sessions one_session server lookup insert add_session get_or_create_client_state
    found_or_new new_state object object_of
two_sessions-Tracked = record { found = refl; active = refl; allocated = omega arith }

s1-differs : ◌≢◌ {A = String} "s1" "s2"
unfolding text_eq
s1-differs e = ground (arith, (==_iff {Key = String} "s1" "s2").1 e)

Steps-Tracked_example :
    Tracked "s2" "10.0.0.7" 0 (cleanup_client_state "10.0.0.7" (remove_session "s1" 0 two_sessions))
Steps-Tracked_example =
    Steps-Tracked (more (more done (removes "s1" 0 s1-differs refl)) (cleans "10.0.0.7" refl))
      two_sessions-Tracked
