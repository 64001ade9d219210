-- ===== src/SmppServer/Accepted.antt =====
-- Which messages handleSubmitSM of sms_server.go takes, and what it answers.
use gomsggw.Base.{
  ℕ, true, false, List, [], ◌∷◌, ◌++◌, Option, none, some, String, nat_eq, nat_eq_iff, text_eq,
  text_eq_iff, Eq_String, All, ◌≡◌, refl, subst, inl, inr, arith, Bool-cases, Option-cases,
}
use gomsggw.Client.{Client}
use gomsggw.Base.Map.{lookup}
use gomsggw.SmppServer.{SmppState, SmppEnv, respond, session_user, submit_resp}
use gomsggw.SmppServer.Bound.{Event, Authenticated, Known, after_events, after_events-Known}
use gomsggw.SmppServer.Submit.{
  SubmitSm, handle_submit_sm, submit_user, submit_client, submit_known, add_to_convo, is_dropped,
  decoded, stop_text,
}

-- The user that is found for a session is one of its entries.
session_user-All :
    (P : String × ℕ → Type 0) (session : ℕ) (conns : List (String × ℕ)) (username : String)
    → All P conns
    → session_user session conns ≡ some username
    → P (username, session)
unfolding session_user
session_user-All P session [] username h e = cc
session_user-All P session ((u, s) ∷ conns) username h e = elim (Bool-cases (nat_eq s session)) [
  | inl same ↦ subst P (ground (arith, e, same, nat_eq_iff s session)) h.0
  | inr other ↦ session_user-All P session conns username h.1 (ground (arith, e, other))
]

module _ (env : SmppEnv) (session : ℕ) (sm : SubmitSm) (st : SmppState) where
  -- A submit_sm of a session without a user is answered and changes nothing else.
  unknown_user :
      session_user session st.conns ≡ none
      → handle_submit_sm env session sm st ≡ respond session submit_resp st
  unfolding handle_submit_sm submit_user
  unknown_user e = rw e refl

-- After any events on a server that started without connections, each with the clients of its time,
-- a submit_sm of a session that bound as no user with the user's password leaves the conversations
-- and ClientMsgChan as they were.
pub handle_submit_sm-Authenticated :
    (env : SmppEnv) (es : List (SmppEnv × Event)) (start : SmppState) (session : ℕ) (sm : SubmitSm)
    → start.conns ≡ []
    → ((username : String) → Authenticated username session es → ⊥)
    → ((handle_submit_sm env session sm (after_events es start)).convos
        ≡ (after_events es start).convos)
      × ((handle_submit_sm env session sm (after_events es start)).client_msg_chan
          ≡ (after_events es start).client_msg_chan)
unfolding respond
handle_submit_sm-Authenticated env es start session sm empty unbound =
    elim (Option-cases (session_user session (after_events es start).conns)) [
      | inl e ↦ rw (unknown_user env session sm (after_events es start) e) (refl, refl)
      | inr (u, e) ↦ absurd (
          unbound u (session_user-All (Known es) session _ u (after_events-Known es start empty) e))
    ]

-- A STOP text of a session that is bound as a known client, from a number that ignores such texts.
pub record IgnoresStop (env : SmppEnv) (session : ℕ) (sm : SubmitSm) (st : SmppState) : Type 0 where
  pub username : String
  pub bound : session_user session st.conns ≡ some username
  pub known : Client
  pub its_client : lookup username env.clients ≡ some known
  pub dropped : is_dropped env sm ≡ true

is_dropped-filled :
    (env : SmppEnv) (sm : SubmitSm) → is_dropped env sm ≡ true → text_eq (decoded env sm) [] ≡ false
unfolding is_dropped text_eq
is_dropped-filled env sm h =
    let stop : decoded env sm ≡ stop_text =
      (text_eq_iff (decoded env sm) stop_text).0 (ground (arith, h)) in
    rw stop refl

module _ (env : SmppEnv) (session : ℕ) (sm : SubmitSm) (st : SmppState) where
  abbrev Answers : SmppState → Type 0
  Answers st' = st'.answers ≡ st.answers ++ (session, submit_resp) ∷ []

  submit_known-Answers : (is_dropped env sm ≡ true → ⊥) → Answers (submit_known env session sm st)
  unfolding submit_known respond add_to_convo
  submit_known-Answers n = elim (Bool-cases (text_eq (decoded env sm) [])) [
    | inl empty ↦ rw empty refl
    | inr filled ↦ rw filled (elim (Bool-cases (is_dropped env sm)) [
      | inl stop ↦ absurd (n stop)
      | inr other ↦ rw other refl
    ])
  ]

  submit_client-Answers :
      (o : Option Client)
      → ((c : Client) → o ≡ some c → is_dropped env sm ≡ true → ⊥)
      → Answers (submit_client env session sm st o)
  unfolding submit_client respond
  submit_client-Answers none n = refl
  submit_client-Answers (some c) n = submit_known-Answers (n c refl)

  submit_user-Answers :
      (o : Option String)
      → session_user session st.conns ≡ o
      → ¬ IgnoresStop env session sm st
      → Answers (submit_user env session sm st o)
  unfolding submit_user respond
  submit_user-Answers none e n = refl
  submit_user-Answers (some u) e n =
      submit_client-Answers _
        (λ c f d. n (record { username = u; bound = e; known = c; its_client = f; dropped = d }))

  ignored : IgnoresStop env session sm st → handle_submit_sm env session sm st ≡ st
  unfolding handle_submit_sm submit_user submit_client submit_known
  ignored d = rw (d.bound, d.its_client, is_dropped-filled env sm d.dropped, d.dropped) refl

-- A STOP text of a session that is bound as a known client, from a number that ignores such texts,
-- gets no answer and changes nothing; any other submit_sm gets one submit_sm_resp.
pub handle_submit_sm-Answered :
    (env : SmppEnv) (session : ℕ) (sm : SubmitSm) (st : SmppState)
    → (IgnoresStop env session sm st → handle_submit_sm env session sm st ≡ st)
      × (¬ IgnoresStop env session sm st
          → (handle_submit_sm env session sm st).answers
            ≡ st.answers ++ (session, submit_resp) ∷ [])
unfolding handle_submit_sm
handle_submit_sm-Answered env session sm st =
    (ignored env session sm st, submit_user-Answers env session sm st _ refl)
