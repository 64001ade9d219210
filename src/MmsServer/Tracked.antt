-- ===== src/MmsServer/Tracked.antt =====
-- A session of the MM4 server of mms_server.go while other connections open, close and clean up.
use gomsggw.Base.{
  ℕ, ◌≡◌, ◌≢◌, refl, sym, subst, List, [], ◌∷◌, Option, none, some, String, false, ◌==◌, ==_iff,
  Eq_String, Eq_ℕ, nat_eq, nat_eq_iff, length, arith, Bool-cases, inl, inr,
}
use gomsggw.Base.Map.{lookup, lookup-insert, lookup-delete}
use gomsggw.MmsServer.Connections.{
  Mm4Server, object, session_count, get_or_create_client_state, add_session, remove_session,
  cleanup_client_state, found_or_new, new_state, if_idle,
}
use gomsggw.MmsServer.Tracking.{
  Step, gets, adds, removes, cleans, Steps, done, more, Tracked, object-insert, add_session-active,
  remove_session-active,
}

length-lookup :
    (id : String) (l : List (String × Unit {0}))
    → lookup id l ≡ some tt
    → nat_eq (length l) 0 ≡ false
unfolding lookup
length-lookup id [] h = cc
length-lookup id (x ∷ l) h = ground arith

module _ (id ip : String) (ref : ℕ) (srv : Mm4Server) (t : Tracked id ip ref srv) where
  -- A new state is no other's, and is not for an address that has one.
  created-Tracked :
      (now : ℕ) (at username : String)
      → lookup at srv.client_states ≡ none
      → Tracked id ip ref (new_state now at username srv)
  unfolding new_state
  created-Tracked now at username e = record {
    found =
        ground (arith, e, t.found, ==_iff at ip, lookup-insert at ip srv.fresh srv.client_states);
    active =
        unfold object in
        rw (object-insert srv.fresh ref _ srv)
          (ground (arith, t.active, t.allocated, nat_eq_iff srv.fresh ref));
    allocated = omega (arith, t.allocated);
  }

  gets-Tracked :
      (now : ℕ) (at username : String) (o : Option ℕ)
      → lookup at srv.client_states ≡ o
      → Tracked id ip ref (found_or_new now at username srv o).0
  unfolding found_or_new
  gets-Tracked now at username (some _) e = t
  gets-Tracked now at username none e = created-Tracked now at username e

  adds-Tracked : (other : String) (at : ℕ) → Tracked id ip ref (add_session other at srv)
  adds-Tracked other at = record {
    found = unfold add_session in t.found;
    active = ground (arith, add_session-active other id at ref srv, t.active);
    allocated = unfold add_session in t.allocated;
  }

  removes-Tracked :
      (other : String) (at : ℕ) → other ≢ id → Tracked id ip ref (remove_session other at srv)
  removes-Tracked other at differs = record {
    found = unfold remove_session in t.found;
    active = elim (Bool-cases (other == id)) [
      | inl same ↦ absurd (differs ((==_iff other id).0 same))
      | inr apart ↦ ground (arith, remove_session-active other id at ref srv, t.active, apart)
    ];
    allocated = unfold remove_session in t.allocated;
  }

  -- A state with a session is not taken out of the map.
  if_idle-Tracked :
      (at : String) (o : Option ℕ)
      → lookup at srv.client_states ≡ o
      → Tracked id ip ref (if_idle at srv o)
  unfolding if_idle
  if_idle-Tracked at none e = t
  if_idle-Tracked at (some r) e = elim (Bool-cases (nat_eq (session_count r srv) 0)) [
    | inr kept ↦ rw kept t
    | inl empty ↦ rw empty (record {
      found =
          unfold session_count in
          ground (
            arith,
            e,
            empty,
            t.found,
            t.active,
            ==_iff at ip,
            lookup-delete at ip srv.client_states,
            length-lookup id (object ref srv).active_sessions,
          );
      active = unfold object in t.active;
      allocated = t.allocated;
    })
  ]

Step-Tracked :
    {id ip : String} {ref : ℕ} {srv srv' : Mm4Server}
    → Step id srv srv'
    → Tracked id ip ref srv
    → Tracked id ip ref srv'
unfolding get_or_create_client_state cleanup_client_state
Step-Tracked {id} {ip} {ref} {srv} (gets now at username e) t =
    subst (Tracked id ip ref) (sym e) (gets-Tracked id ip ref srv t now at username _ refl)
Step-Tracked {id} {ip} {ref} {srv} (adds other at differs e) t =
    subst (Tracked id ip ref) (sym e) (adds-Tracked id ip ref srv t other at)
Step-Tracked {id} {ip} {ref} {srv} (removes other at differs e) t =
    subst (Tracked id ip ref) (sym e) (removes-Tracked id ip ref srv t other at differs)
Step-Tracked {id} {ip} {ref} {srv} (cleans at e) t =
    subst (Tracked id ip ref) (sym e) (if_idle-Tracked id ip ref srv t at _ refl)

-- A session that is one of the state that the map has for its address stays so, whatever other
-- connections do, in any order and with each call under its own lock: the map keeps the state, and
-- the state keeps the session.
pub Steps-Tracked :
    {id ip : String} {ref : ℕ} {srv srv' : Mm4Server}
    → Steps id srv srv'
    → Tracked id ip ref srv
    → Tracked id ip ref srv'
Steps-Tracked done t = t
Steps-Tracked (more run step) t = Step-Tracked step (Steps-Tracked run t)
