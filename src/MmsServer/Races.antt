-- ===== src/MmsServer/Races.antt =====
-- A connection of mms_server.go that starts while the last other one of its client ends.
use gomsggw.Base.{
  ℕ, ◌≡◌, refl, none, some, String, ==_iff, Eq_String, Eq_ℕ, nat_eq, nat_eq_iff, arith, ap,
}
use gomsggw.Base.Map.{lookup, insert, delete, lookup-insert, lookup-delete}
use gomsggw.MmsServer.Connections.{
  Mm4Server, object, session_count, get_or_create_client_state, add_session, remove_session,
  cleanup_client_state, end_session, found_or_new, new_state, if_idle, object_of,
}
use gomsggw.MmsServer.Tracking.{add_session-active}

-- Two connections of one address: the second gets its state, the first ends and cleans up, and then
-- the second adds its session.
abbrev pub overtaken : ℕ → String → String → String → String → Mm4Server → Mm4Server × ℕ
overtaken now ip username first second srv =
    let entered = get_or_create_client_state now ip username srv in
    let opened = add_session first entered.1 entered.0 in
    let again = get_or_create_client_state now ip username opened in
    let ended = cleanup_client_state ip (remove_session first entered.1 again.0) in
    (add_session second again.1 ended, again.1)

pub entered-new :
    (now : ℕ) (ip username : String) (srv : Mm4Server)
    → lookup ip srv.client_states ≡ none
    → get_or_create_client_state now ip username srv ≡ (new_state now ip username srv, srv.fresh)
unfolding get_or_create_client_state found_or_new
entered-new now ip username srv e = rw e refl

entered-old :
    (now : ℕ) (ip username : String) (srv : Mm4Server) (ref : ℕ)
    → lookup ip srv.client_states ≡ some ref
    → get_or_create_client_state now ip username srv ≡ (srv, ref)
unfolding get_or_create_client_state found_or_new
entered-old now ip username srv ref e = rw e refl

module _ (now : ℕ) (ip username first : String) (srv : Mm4Server) where
  abbrev pub alone : Mm4Server
  alone = add_session first srv.fresh (new_state now ip username srv)

  alone-found : lookup ip alone.client_states ≡ some srv.fresh
  unfolding add_session new_state
  alone-found = ground (arith, lookup-insert ip ip srv.fresh srv.client_states, ==_iff ip ip)

  -- The only session of a new state leaves it empty.
  pub alone-emptied : session_count srv.fresh (remove_session first srv.fresh alone) ≡ 0
  unfolding session_count object object_of remove_session add_session new_state lookup insert delete
  alone-emptied = ground (arith, nat_eq_iff srv.fresh srv.fresh, ==_iff first first)

  -- The cleanup takes an empty state out of the map.
  pub alone-if_idle :
      lookup ip (cleanup_client_state ip (remove_session first srv.fresh alone)).client_states
      ≡ none
  unfolding cleanup_client_state if_idle remove_session
  alone-if_idle = rw alone-found (
      rw (ap (λ n. nat_eq n 0) alone-emptied)
        (ground (arith, lookup-delete ip ip alone.client_states, ==_iff ip ip)))

  -- So does the end of the connection.
  pub end_session-cleared : lookup ip (end_session ip first srv.fresh alone).client_states ≡ none
  unfolding end_session
  end_session-cleared = rw (ap (λ n. nat_eq n 0) alone-emptied) alone-if_idle

-- A connection that gets the state of its address before the last other session of it ends, and adds
-- its own session after the cleanup, is in a state that the map does not have.
pub overtaken-untracked :
    (now : ℕ) (ip username first second : String) (srv : Mm4Server)
    → lookup ip srv.client_states ≡ none
    → (let last = overtaken now ip username first second srv in
        (lookup ip last.0.client_states ≡ none)
        × (lookup second (object last.1 last.0).active_sessions ≡ some tt))
overtaken-untracked now ip username first second srv e = rw (entered-new now ip username srv e) (
    rw
      (entered-old now ip username (alone now ip username first srv) srv.fresh
        (alone-found now ip username first srv))
      (
        unfold add_session in alone-if_idle now ip username first srv,
        ground (
          arith,
          add_session-active second second srv.fresh srv.fresh (
              cleanup_client_state ip
                (remove_session first srv.fresh (alone now ip username first srv))),
          nat_eq_iff srv.fresh srv.fresh,
          ==_iff second second,
        ),
      ))
