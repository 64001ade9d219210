-- ===== src/SmppServer/Bound.antt =====
-- Which users the sessions of sms_server.go stand for, after any events on the server.
use gomsggw.Base.{
  ℕ, true, false, ◌||◌, List, [], ◌∷◌, Option, none, some, String, ◌==◌, Eq_String, nat_eq, All,
  All-weaken, ◌≡◌, refl, inl, inr, arith, Bool-cases, if_cases,
}
use gomsggw.Base.Map.{lookup, insert, delete}
use gomsggw.Client.{Client}
use gomsggw.SmppServer.{
  SmppState, SmppEnv, auth_client, is_web_user, respond, close, send_bind_error, close_old, enter,
  bind_as, handle_bind, remove_session, handle_unbind, handle_closed, handle_deliver_sm,
}
use gomsggw.SmppServer.Submit.{
  SubmitSm, handle_submit_sm, submit_user, submit_client, submit_known, add_to_convo,
}

-- What happens on the server: a PDU of a session, or its end.
pub data Event : Type 0 where
  binds : String → String → ℕ → Event
  submits : ℕ → SubmitSm → Event
  delivers unbinds ends : ℕ → Event

pub on_event : SmppEnv → Event → SmppState → SmppState
on_event env (binds username password session) st = handle_bind env username password session st
on_event env (submits session sm) st = handle_submit_sm env session sm st
on_event env (delivers session) st = handle_deliver_sm session st
on_event env (unbinds session) st = handle_unbind session st
on_event env (ends session) st = handle_closed session st

-- The newest event stands first; each has the clients of its time.
pub after_events : List (SmppEnv × Event) → SmppState → SmppState
after_events [] st = st
after_events (e ∷ es) st = on_event e.0 e.1 (after_events es st)

-- The session bound as the user, with the user's password, as no web client.
pub data Authenticated (username : String) (session : ℕ) : List (SmppEnv × Event) → Type 0 where
  here :
      {env : SmppEnv} {e : Event} {es : List (SmppEnv × Event)} (password : String)
      → e ≡ binds username password session
      → auth_client env username password ≡ true
      → is_web_user env username ≡ false
      → Authenticated username session ((env, e) ∷ es)
  later :
      {e : SmppEnv × Event} {es : List (SmppEnv × Event)}
      → Authenticated username session es
      → Authenticated username session (e ∷ es)

abbrev pub Known : List (SmppEnv × Event) → String × ℕ → Type 0
Known es entry = Authenticated entry.0 entry.1 es

-- Where a handler takes entries away only, what holds of each holds after it.
All-delete :
    (P : String × ℕ → Type 0) (key : String) (l : List (String × ℕ))
    → All P l
    → All P (delete key l)
unfolding delete
All-delete P key [] h = tt
All-delete P key (x ∷ l) h =
    if_cases (All P) (x.0 == key) (All-delete P key l h.1) (h.0, All-delete P key l h.1)

All-remove_session :
    (P : String × ℕ → Type 0) (session : ℕ) (l : List (String × ℕ))
    → All P l
    → All P (remove_session session l)
unfolding remove_session
All-remove_session P session [] h = tt
All-remove_session P session (x ∷ l) h =
    if_cases (All P) (nat_eq x.1 session) h.1 (h.0, All-remove_session P session l h.1)

close_old-conns :
    (session : ℕ) (o : Option ℕ) (st : SmppState) → (close_old session o st).conns ≡ st.conns
unfolding close_old close
close_old-conns session none st = refl
close_old-conns session (some old) st =
    if_cases (λ (t : SmppState). t.conns ≡ st.conns) (nat_eq old session) refl refl

enter-All :
    (P : String × ℕ → Type 0) (username : String) (session : ℕ) (st : SmppState)
    → P (username, session)
    → All P st.conns
    → All P (enter username session st).conns
unfolding enter insert
enter-All P username session st p h =
    (p, All-delete P username _ (rw (close_old-conns session (lookup username st.conns) st) h))

bind_as-All :
    (P : String × ℕ → Type 0) (env : SmppEnv) (username : String) (session : ℕ) (st : SmppState)
    → P (username, session)
    → All P st.conns
    → All P (bind_as env username session st).conns
unfolding bind_as respond close
bind_as-All P env username session st p h =
    if_cases (λ (t : SmppState). All P t.conns) (env.sends session)
      (enter-All P username session _ p h) h

handle_bind-All :
    (P : String × ℕ → Type 0) (env : SmppEnv) (username password : String) (session : ℕ)
    (st : SmppState)
    → (auth_client env username password ≡ true
        → is_web_user env username ≡ false
        → P (username, session))
    → All P st.conns
    → All P (handle_bind env username password session st).conns
unfolding handle_bind send_bind_error respond close
handle_bind-All P env username password session st p h =
    elim (Bool-cases (username == "" || password == "")) [
      | inl blank ↦ rw blank h
      | inr filled ↦ rw filled (elim (Bool-cases (auth_client env username password)) [
        | inr refused ↦ rw refused h
        | inl authed ↦ rw authed (elim (Bool-cases (is_web_user env username)) [
          | inl web ↦ rw web h
          | inr legacy ↦ rw legacy (bind_as-All P env username session st (p authed legacy) h)
        ])
      ])
    ]

submit_known-conns :
    (env : SmppEnv) (session : ℕ) (sm : SubmitSm) (st : SmppState)
    → (submit_known env session sm st).conns ≡ st.conns
unfolding submit_known respond add_to_convo
submit_known-conns env session sm st = ground arith

submit_client-conns :
    (env : SmppEnv) (session : ℕ) (sm : SubmitSm) (st : SmppState) (o : Option Client)
    → (submit_client env session sm st o).conns ≡ st.conns
unfolding submit_client respond
submit_client-conns env session sm st none = refl
submit_client-conns env session sm st (some client) = submit_known-conns env session sm st

submit_user-conns :
    (env : SmppEnv) (session : ℕ) (sm : SubmitSm) (st : SmppState) (o : Option String)
    → (submit_user env session sm st o).conns ≡ st.conns
unfolding submit_user respond
submit_user-conns env session sm st none = refl
submit_user-conns env session sm st (some username) = submit_client-conns env session sm st _

-- Each entry is of a session that bound as the user.
on_event-All :
    (P : String × ℕ → Type 0) (env : SmppEnv) (e : Event) (st : SmppState)
    → ((username password : String) (session : ℕ)
        → e ≡ binds username password session
        → auth_client env username password ≡ true
        → is_web_user env username ≡ false
        → P (username, session))
    → All P st.conns
    → All P (on_event env e st).conns
unfolding on_event handle_submit_sm handle_unbind handle_closed handle_deliver_sm respond close
on_event-All P env (binds username password session) st p h =
    handle_bind-All P env username password session st (p username password session refl) h
on_event-All P env (submits session sm) st p h = rw (submit_user-conns env session sm st _) h
on_event-All P env (delivers session) st p h = h
on_event-All P env (unbinds session) st p h = All-remove_session P session st.conns h
on_event-All P env (ends session) st p h = All-remove_session P session st.conns h

pub after_events-Known :
    (es : List (SmppEnv × Event)) (st : SmppState)
    → st.conns ≡ []
    → All (Known es) (after_events es st).conns
unfolding after_events
after_events-Known [] st e = rw e tt
after_events-Known (e ∷ es) st empty =
    on_event-All (Known (e ∷ es)) e.0 e.1 (after_events es st)
      (λ username password session q a w. here password q a w)
      (All-weaken (Known es) (Known (e ∷ es)) _ (λ entry k. later k)
        (after_events-Known es st empty))
