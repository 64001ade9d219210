-- ===== src/MmsServer/Ends.antt =====
-- How a connection of mms_server.go ends: its replies, its messages and its state.
use gomsggw.Base.{
  ℕ, ◌≡◌, refl, ap, List, ◌++◌, Option, none, some, String, Text, All, count, length, Eq_String,
  Eq_ℕ, nat_eq, arith, if_cases,
}
use gomsggw.Base.Map.{lookup}
use gomsggw.Client.{Client}
use gomsggw.MmsServer.{Mm4Env, Mm4Message, Reply, Session}
use gomsggw.MmsServer.Connections.{
  Mm4Server, Connection, handle_connection, connect, accept, leave, finish_session,
  get_client_by_ip, end_session, add_session, new_session, cleanup_client_state, remove_session,
  session_count, if_idle, new_state, object,
}
use gomsggw.MmsServer.Envelope.{Proper, is_taken, write_response-Proper}
use gomsggw.MmsServer.Queued.{handle_session-Proper}
use gomsggw.MmsServer.Races.{entered-new, alone, end_session-cleared}
use gomsggw.MmsServer.Reading.{Complete}
use gomsggw.MmsServer.Sequence.{Consumes, Ends}
use gomsggw.MmsServer.Sessions.{Ended, closed, failed, out_of_fuel}

-- What a connection of the client leaves on a server that had no state for its address.
pub record Served (ip client : String) (srv : Mm4Server) (out : List Reply × Mm4Server)
    : Type 0 where
  pub messages : List Mm4Message
  pub queued : out.1.media_transcode ≡ srv.media_transcode ++ messages
  pub complete : All (Complete client) messages
  pub answered : count is_taken out.0 ≡ length messages
  pub cleared : lookup ip out.1.client_states ≡ none

new_session-Proper :
    (lines : List Text) (c : Client) (id : String) → Proper c.username (new_session lines c id)
unfolding new_session
new_session-Proper lines c id = record {
  in_order = omega arith;
  addressed = λ h. absurd (omega arith);
  answered = refl;
  complete = tt;
  of_client = refl;
}

if_idle-media :
    (ip : String) (srv : Mm4Server) (o : Option ℕ)
    → (if_idle ip srv o).media_transcode ≡ srv.media_transcode
unfolding if_idle
if_idle-media ip srv none = refl
if_idle-media ip srv (some ref) =
    if_cases (λ (t : Mm4Server). t.media_transcode ≡ srv.media_transcode)
      (nat_eq (session_count ref srv) 0) refl refl

end_session-media :
    (ip id : String) (ref : ℕ) (srv : Mm4Server)
    → (end_session ip id ref srv).media_transcode ≡ srv.media_transcode
unfolding end_session cleanup_client_state remove_session
end_session-media ip id ref srv =
    if_cases (λ (t : Mm4Server). t.media_transcode ≡ srv.media_transcode)
      (nat_eq (session_count ref (remove_session id ref srv)) 0)
      (if_idle-media ip (remove_session id ref srv) _) refl

module _ (now : ℕ) (ip username client id : String) (srv : Mm4Server) where
  leave-Served :
      (s : Session)
      → Proper client s
      → (out : List Reply × Mm4Server) × (leave ip id srv.fresh s (alone now ip username id srv)
          ≡ some out)
        × Served ip client srv out
  unfolding leave
  leave-Served s p = (
    _,
    refl,
    record {
      messages = s.transcode;
      queued =
          unfold add_session new_state in
          end_session-media ip id srv.fresh (record (alone now ip username id srv) {
            media_transcode = srv.media_transcode ++ s.transcode;
          });
      complete = p.complete;
      answered = p.answered;
      cleared =
          unfold add_session new_state object in
          end_session-cleared now ip username id
            (record srv { media_transcode = srv.media_transcode ++ s.transcode });
    },
  )

  finish_session-Served :
      (e : Ended)
      → Ends (Proper client) e
      → (out : List Reply × Mm4Server) × (finish_session ip id srv.fresh
            (alone now ip username id srv)
            e
          ≡ some out)
        × Served ip client srv out
  unfolding finish_session
  finish_session-Served (closed s) p = leave-Served s p
  finish_session-Served (failed e s) p = leave-Served _ (write_response-Proper client s _ refl p)
  finish_session-Served out_of_fuel p = absurd p

accept-Served :
    (env : Mm4Env) (hash_ip : String → String) (conn : Connection) (ip : String) (srv : Mm4Server)
    (client : Client)
    → Consumes env
    → lookup (hash_ip ip) srv.client_states ≡ none
    → (out : List Reply × Mm4Server) × (accept env hash_ip conn ip srv (some client) ≡ some out)
      × Served (hash_ip ip) client.username srv out
unfolding accept
accept-Served env hash_ip conn ip srv client reads e =
    rw (entered-new conn.now (hash_ip ip) client.username srv e) (
      finish_session-Served conn.now (hash_ip ip) client.username client.username conn.session_id
        srv _
        (unfold new_session in
          handle_session-Proper env (new_session conn.lines client conn.session_id) reads
            (new_session-Proper conn.lines client conn.session_id)))

-- A connection of a known address, which has no other, always returns. Each message that it gave to
-- transcoding was answered, is complete and of the client, and the server has no state left for it.
pub handle_connection-Served :
    (env : Mm4Env) (hash_ip : String → String) (clients : List Client) (conn : Connection)
    (srv : Mm4Server) (ip : String) (client : Client)
    → Consumes env
    → conn.ip ≡ some ip
    → get_client_by_ip ip clients ≡ some client
    → lookup (hash_ip ip) srv.client_states ≡ none
    → (out : List Reply × Mm4Server) × (handle_connection env hash_ip clients conn srv ≡ some out)
      × Served (hash_ip ip) client.username srv out
unfolding handle_connection connect
handle_connection-Served env hash_ip clients conn srv ip client reads here known e =
    rw (ap (connect env hash_ip clients conn srv) here)
      (rw known (accept-Served env hash_ip conn ip srv client reads e))
