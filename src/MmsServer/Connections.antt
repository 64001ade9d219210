-- ===== src/MmsServer/Connections.antt =====
-- handleConnection of mms_server.go, and the states that it keeps for the clients by their hashed IP.
-- A state is an object: the map holds its reference, and so does each connection. Nothing reads the
-- sessions that ActiveSessions holds, so it has their names alone; LastActivityAt is left out. A method is one step, since it
-- runs under a lock; handleConnection is several.
use gomsggw.Base.{
  ℕ, suc, List, [], ◌∷◌, ◌++◌, Option, none, some, String, Text, ◌==◌, Eq_String, Eq_ℕ, nat_eq,
  length, if◌then◌else◌,
}
use gomsggw.Base.Map.{lookup, insert, delete}
use gomsggw.Client.{Client}
use gomsggw.MmsServer.{Mm4Env, Mm4Message, Reply, says, Session, write_response}
use gomsggw.MmsServer.Sessions.{Ended, closed, failed, out_of_fuel, handle_session}

pub record Mm4ClientState : Type 0 where
  pub username : String
  pub active_sessions : List (String × Unit {0})
  pub first_connect_at : ℕ

pub record Mm4Server : Type 0 where
  -- hashed IP to the reference of a state
  pub client_states : List (String × ℕ)
  pub objects : List (ℕ × Mm4ClientState)
  -- the reference of the next new object
  pub fresh : ℕ
  -- what the sessions put on `MediaTranscodeChan`
  pub media_transcode : List Mm4Message

-- a state that no reference names has no session
unfoldable pub nothing : Mm4ClientState
nothing = record { username = ""; active_sessions = []; first_connect_at = 0 }

unfoldable pub object_of : Option Mm4ClientState → Mm4ClientState
unfolding nothing
object_of none = nothing
object_of (some cs) = cs

unfoldable pub object : ℕ → Mm4Server → Mm4ClientState
unfolding object_of
object ref srv = object_of (lookup ref srv.objects)

unfoldable pub session_count : ℕ → Mm4Server → ℕ
unfolding object
session_count ref srv = length (object ref srv).active_sessions

unfoldable pub new_state : ℕ → String → String → Mm4Server → Mm4Server
new_state now ip username srv = record srv {
  client_states = insert ip srv.fresh srv.client_states;
  objects =
      insert srv.fresh
        (record { username = username; active_sessions = []; first_connect_at = now }) srv.objects;
  fresh = suc srv.fresh;
}

unfoldable pub found_or_new : ℕ → String → String → Mm4Server → Option ℕ → Mm4Server × ℕ
unfolding new_state
found_or_new now ip username srv (some ref) = (srv, ref)
found_or_new now ip username srv none = (new_state now ip username srv, srv.fresh)

unfoldable pub get_or_create_client_state : ℕ → String → String → Mm4Server → Mm4Server × ℕ
unfolding found_or_new
get_or_create_client_state now ip username srv =
    found_or_new now ip username srv (lookup ip srv.client_states)

unfoldable pub add_session : String → ℕ → Mm4Server → Mm4Server
unfolding object
add_session id ref srv = record srv {
  objects =
      insert ref
        (record (object ref srv) {
          active_sessions = insert id tt (object ref srv).active_sessions;
        })
        srv.objects;
}

unfoldable pub remove_session : String → ℕ → Mm4Server → Mm4Server
unfolding object
remove_session id ref srv = record srv {
  objects =
      insert ref
        (record (object ref srv) { active_sessions = delete id (object ref srv).active_sessions })
        srv.objects;
}

unfoldable pub if_idle : String → Mm4Server → Option ℕ → Mm4Server
unfolding session_count
if_idle ip srv none = srv
if_idle ip srv (some ref) =
    if nat_eq (session_count ref srv) 0
    then record srv { client_states = delete ip srv.client_states }
    else srv

unfoldable pub cleanup_client_state : String → Mm4Server → Mm4Server
unfolding if_idle
cleanup_client_state ip srv = if_idle ip srv (lookup ip srv.client_states)

-- the end of a connection: what the deferred function does
unfoldable pub end_session : String → String → ℕ → Mm4Server → Mm4Server
unfolding remove_session cleanup_client_state session_count
end_session ip id ref srv =
    let removed = remove_session id ref srv in
    if nat_eq (session_count ref removed) 0 then cleanup_client_state ip removed else removed

-- the first client of the address, in the order in which the map is visited
unfoldable pub get_client_by_ip : String → List Client → Option Client
get_client_by_ip ip [] = none
get_client_by_ip ip (c ∷ clients) =
    let later = get_client_by_ip ip clients in if c.address == ip then some c else later

-- What a connection knows when it starts.
pub record Connection : Type 0 where
  -- the part of the address before the port, if it has one
  pub ip : Option String
  pub lines : List Text
  pub session_id : String
  pub now : ℕ

-- The replies on the connection and the server after it; `none` if the session never returns.
abbrev pub Connected : Type 0
Connected = Option (List Reply × Mm4Server)

unfoldable pub new_session : List Text → Client → String → Session
new_session lines client id = record {
  input = lines;
  output = says 220 "localhost SMTP server ready" ∷ [];
  from = [];
  to = [];
  body = [];
  headers = [];
  client = client.username;
  session_id = id;
  state = 0;
  transcode = [];
}

unfoldable pub leave : String → String → ℕ → Session → Mm4Server → Connected
unfolding end_session
leave ip id ref s srv = some (
  s.output,
  end_session ip id ref (record srv { media_transcode = srv.media_transcode ++ s.transcode }),
)

-- An error of the session, that of QUIT too, is one more reply.
unfoldable pub finish_session : String → String → ℕ → Mm4Server → Ended → Connected
unfolding leave
finish_session ip id ref srv (closed s) = leave ip id ref s srv
finish_session ip id ref srv (failed e s) =
    leave ip id ref (write_response (says 451 "Internal server error") s) srv
finish_session ip id ref srv out_of_fuel = none

unfoldable pub accept :
    Mm4Env → (String → String) → Connection → String → Mm4Server → Option Client → Connected
unfolding finish_session new_session add_session get_or_create_client_state
accept env hash_ip conn ip srv none =
    some (says 220 "localhost SMTP server ready" ∷ says 550 "Access denied" ∷ [], srv)
accept env hash_ip conn ip srv (some client) =
    let entered = get_or_create_client_state conn.now (hash_ip ip) client.username srv in
    let added = add_session conn.session_id entered.1 entered.0 in
    finish_session (hash_ip ip) conn.session_id entered.1 added
      (handle_session env (new_session conn.lines client conn.session_id))

unfoldable pub connect :
    Mm4Env → (String → String) → List Client → Connection → Mm4Server → Option String → Connected
unfolding accept
connect env hash_ip clients conn srv none = some ([], srv)
connect env hash_ip clients conn srv (some ip) =
    accept env hash_ip conn ip srv (get_client_by_ip ip clients)

-- A connection alone on the server.
unfoldable pub handle_connection :
    Mm4Env → (String → String) → List Client → Connection → Mm4Server → Connected
unfolding connect
handle_connection env hash_ip clients conn srv = connect env hash_ip clients conn srv conn.ip
