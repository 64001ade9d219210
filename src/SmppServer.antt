-- ===== src/SmppServer.antt =====
-- sms_server.go: the SMPP server of the legacy clients, with authClient of clients.go. A session is
-- a number. What the SMPP library does, to send a PDU or to decode one of the other alphabets, is a
-- parameter. A handler is one step; the order of the entries of `conns` is that of the visits.
pub mod Submit
pub mod Cleaning
pub mod Sending
pub mod Bound
pub mod Accepted
pub mod Delivered
use gomsggw.Base.{
  ℕ, Bool, true, false, not, ◌&&◌, ◌||◌, List, [], ◌∷◌, ◌++◌, Option, none, some, String, Text,
  codes, nat_eq, ◌==◌, Eq_String, if◌then◌else◌,
}
use gomsggw.Base.Map.{lookup, insert, delete}
use gomsggw.Client.{Client}
use gomsggw.Convo.{ConvoManager}
use gomsggw.Message.{MsgQueueItem}

pub data BindStatus : Type 0 where
  accepted invalid_system_id invalid_passwd bind_fail : BindStatus

-- A response that was handed to `session.Send`.
pub data Answer : Type 0 where
  bind_resp : BindStatus → Answer
  submit_resp deliver_resp unbind_resp : Answer

pub record SmppState : Type 0 where
  -- username to session
  pub conns : List (String × ℕ)
  -- the sessions that the server closed, in their order
  pub closed : List ℕ
  pub answers : List (ℕ × Answer)
  pub convos : ConvoManager
  pub client_msg_chan : List MsgQueueItem

pub record SmppEnv : Type 0 where
  -- `gateway.Clients`
  pub clients : List (String × Client)
  -- whether `session.Send` works
  pub sends : ℕ → Bool
  -- the text that the decoder of another alphabet gives, with an error too
  pub decode : ℕ → List ℕ → Text
  -- the order in which `gateway.Clients` is visited
  pub visit : List Client
  pub now : ℕ
  pub log_id : String

abbrev password_is : String → Option Client → Bool
password_is password none = false
password_is password (some c) = c.password == password

-- authClient, which gives no error
unfoldable pub auth_client : SmppEnv → String → String → Bool
auth_client env username password = password_is password (lookup username env.clients)

abbrev web_client : Option Client → Bool
web_client none = false
web_client (some c) = c.type == "web"

unfoldable pub is_web_user : SmppEnv → String → Bool
is_web_user env username = web_client (lookup username env.clients)

unfoldable pub respond : ℕ → Answer → SmppState → SmppState
respond session a st = record st { answers = st.answers ++ (session, a) ∷ [] }

unfoldable pub close : ℕ → SmppState → SmppState
close session st = record st { closed = st.closed ++ session ∷ [] }

-- sendBindError
unfoldable pub send_bind_error : ℕ → BindStatus → SmppState → SmppState
unfolding respond close
send_bind_error session status st = close session (respond session (bind_resp status) st)

-- The session that the user had is closed.
unfoldable pub close_old : ℕ → Option ℕ → SmppState → SmppState
unfolding close
close_old session none st = st
close_old session (some old) st = if nat_eq old session then st else close old st

unfoldable pub enter : String → ℕ → SmppState → SmppState
unfolding close_old
enter username session st =
    let closed = close_old session (lookup username st.conns) st in
    record closed { conns = insert username session closed.conns }

unfoldable pub bind_as : SmppEnv → String → ℕ → SmppState → SmppState
unfolding respond close enter
bind_as env username session st =
    let answered = respond session (bind_resp accepted) st in
    if env.sends session then enter username session answered else close session answered

unfoldable pub handle_bind : SmppEnv → String → String → ℕ → SmppState → SmppState
unfolding bind_as send_bind_error is_web_user auth_client
handle_bind env username password session st =
    if username == "" || password == ""
    then send_bind_error session invalid_system_id st
    else if not (auth_client env username password)
    then send_bind_error session invalid_passwd st
    else if is_web_user env username
    then send_bind_error session bind_fail st
    else bind_as env username session st

-- removeSession takes out the first entry of the session and leaves any other.
unfoldable pub remove_session : ℕ → List (String × ℕ) → List (String × ℕ)
remove_session session [] = []
remove_session session (entry ∷ conns) =
    let others = entry ∷ remove_session session conns in
    if nat_eq entry.1 session then conns else others

unfoldable pub handle_unbind : ℕ → SmppState → SmppState
unfolding respond close remove_session
handle_unbind session st =
    let closed = close session (respond session unbind_resp st) in
    record closed { conns = remove_session session closed.conns }

-- the end of Serve: the peer closed the connection
unfoldable pub handle_closed : ℕ → SmppState → SmppState
unfolding remove_session
handle_closed session st = record st { conns = remove_session session st.conns }

unfoldable pub handle_deliver_sm : ℕ → SmppState → SmppState
unfolding respond
handle_deliver_sm session st = respond session deliver_resp st

-- The first user of the session.
unfoldable pub session_user : ℕ → List (String × ℕ) → Option String
session_user session [] = none
session_user session (entry ∷ conns) =
    let later = session_user session conns in if nat_eq entry.1 session then some entry.0 else later

-- getSessionByUsername and isSessionActive
unfoldable pub get_session_by_username : String → SmppState → Option ℕ
get_session_by_username username st = lookup username st.conns
