-- ===== src/MmsServer/Tracking.antt =====
-- The steps of the connections to the MM4 server, and the states of mms_server.go that track them.
use gomsggw.Base.{
  ℕ, ◌<◌, ◌≡◌, ◌≢◌, refl, none, some, String, ◌&&◌, ◌==◌, Eq_String, Eq_ℕ, nat_eq, nat_eq_iff,
  if◌then◌else◌, arith, Bool-cases, inl, inr,
}
use gomsggw.Base.Map.{lookup, insert, lookup-insert, lookup-delete}
use gomsggw.MmsServer.Connections.{
  Mm4ClientState, Mm4Server, object, get_or_create_client_state, add_session, remove_session,
  cleanup_client_state, object_of,
}

-- A step that is not of the session `id`: each is what the code does under one lock. Another
-- connection gets the state of its address, or adds or removes its session, or cleans up.
pub data Step (id : String) (srv srv' : Mm4Server) : Type 0 where
  gets :
      (now : ℕ) (ip username : String)
      → srv' ≡ (get_or_create_client_state now ip username srv).0
      → Step id srv srv'
  adds :
      (other : String) (ref : ℕ) → other ≢ id → srv' ≡ add_session other ref srv → Step id srv srv'
  removes :
      (other : String) (ref : ℕ)
      → other ≢ id
      → srv' ≡ remove_session other ref srv
      → Step id srv srv'
  cleans : (ip : String) → srv' ≡ cleanup_client_state ip srv → Step id srv srv'

pub data Steps (id : String) (srv : Mm4Server) : Mm4Server → Type 0 where
  done : Steps id srv srv
  more : {mid last : Mm4Server} → Steps id srv mid → Step id mid last → Steps id srv last

-- The session is one of the state `ref`, which the map has for the address.
pub record Tracked (id ip : String) (ref : ℕ) (srv : Mm4Server) : Type 0 where
  pub found : lookup ip srv.client_states ≡ some ref
  pub active : lookup id (object ref srv).active_sessions ≡ some tt
  pub allocated : ref < srv.fresh

pub object-insert :
    (set ref : ℕ) (v : Mm4ClientState) (srv : Mm4Server)
    → object_of (lookup ref (insert set v srv.objects))
      ≡ (if nat_eq set ref then v else object ref srv)
unfolding object object_of
object-insert set ref v srv =
    rw (lookup-insert set ref v srv.objects)
      (elim (Bool-cases (nat_eq set ref)) [ inl e ↦ rw e refl | inr e ↦ rw e refl ])

-- A session added to a state is in it, and those that were stay.
pub add_session-active :
    (id other : String) (ref at : ℕ) (srv : Mm4Server)
    → lookup other (object at (add_session id ref srv)).active_sessions ≡ (
        if nat_eq ref at && id == other
        then some tt
        else lookup other (object at srv).active_sessions)
unfolding object add_session
add_session-active id other ref at srv =
    rw (object-insert ref at _ srv) (
      ground (arith, nat_eq_iff ref at, lookup-insert id other tt (object ref srv).active_sessions))

pub remove_session-active :
    (id other : String) (ref at : ℕ) (srv : Mm4Server)
    → lookup other (object at (remove_session id ref srv)).active_sessions ≡ (
        if nat_eq ref at && id == other then none else lookup other (object at srv).active_sessions)
unfolding object remove_session
remove_session-active id other ref at srv =
    rw (object-insert ref at _ srv)
      (ground (arith, nat_eq_iff ref at, lookup-delete id other (object ref srv).active_sessions))
