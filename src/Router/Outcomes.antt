-- ===== src/Router/Outcomes.antt =====
-- What one whole run of `processMessage` of router.go changes.
use gomsggw.Base.{
  Bool, true, false, Option, none, some, Text, ◌==◌, Eq_String, ◌≡◌, refl, subst, sym, inl, inr,
  Bool-cases, Option-cases,
}
use gomsggw.Client.{Client}
use gomsggw.Limits.Check.{check_message_limits}
use gomsggw.Message.{MsgQueueItem, sms_type, mms_type}
use gomsggw.Router.Accounting.{Exclusive, Accounted, Delivers, Delivers-refl}
use gomsggw.Router.Deliveries.{
  deliver_web_sms-Delivers, deliver_web_mms-Delivers, deliver_mm4-Delivers, deliver_smpp-Delivers,
}
use gomsggw.Router.Hook.{auto_reply_hook}
use gomsggw.Router.Process.{
  is_web, deliver_sms, deliver_mms, deliver, after_hook, is_blocked, required, is_missing,
  route_message, release_failed,
}
use gomsggw.Router.Replies.{auto_reply_hook-Replies}
use gomsggw.Router.Sends.{
  CarrierSent, refused, accepted, send_carrier_sms-CarrierSent, send_carrier_mms-Delivers,
}
use gomsggw.Router.{Origin, client, carrier, RouterEnv, RouterState}

module _ (env : RouterEnv) (origin : Origin) (m : MsgQueueItem) (from_client : Option Client)
    (st : RouterState) where
  -- A message to one of the gateway's clients never counts as successful.
  deliver_sms_client :
      (c : Client)
      → Delivers st (deliver_sms env origin m (some c) from_client st).0
        × ((deliver_sms env origin m (some c) from_client st).1 ≡ false)
  unfolding deliver_sms
  deliver_sms_client c = elim (Bool-cases (is_web c)) [
    | inl web ↦ rw web (deliver_web_sms-Delivers env origin m c from_client st, refl)
    | inr legacy ↦ rw legacy (deliver_smpp-Delivers env origin m c from_client st, refl)
  ]

  deliver_mms-Delivers :
      (to_client : Option Client) → Delivers st (deliver_mms env origin m to_client from_client st)
  unfolding deliver_mms
  deliver_mms-Delivers none = send_carrier_mms-Delivers env origin m from_client st
  deliver_mms-Delivers (some c) = elim (Bool-cases (is_web c)) [
    | inl web ↦ rw web (deliver_web_mms-Delivers env origin m c from_client st)
    | inr legacy ↦ rw legacy (deliver_mm4-Delivers env origin m c from_client st)
  ]

  pub deliver_client :
      (c : Client)
      → Delivers st (deliver env origin m (some c) from_client st).0
        × ((deliver env origin m (some c) from_client st).1 ≡ false)
  unfolding deliver
  deliver_client c = elim (Bool-cases (m.type == sms_type)) [
    | inl sms ↦ rw sms (deliver_sms_client c)
    | inr not_sms ↦ elim (Bool-cases (m.type == mms_type)) [
      | inl mms ↦ rw (not_sms, mms) (deliver_mms-Delivers (some c), refl)
      | inr other ↦ rw (not_sms, other) (Delivers-refl st, refl)
    ]
  ]

  deliver_carrier : CarrierSent env m st (deliver env origin m none from_client st)
  unfolding deliver deliver_sms
  deliver_carrier = elim (Bool-cases (m.type == sms_type)) [
    | inl sms ↦ rw sms (send_carrier_sms-CarrierSent env origin m from_client st)
    | inr not_sms ↦ elim (Bool-cases (m.type == mms_type)) [
      | inl mms ↦ rw (not_sms, mms) (refused _ (deliver_mms-Delivers none))
      | inr other ↦ rw (not_sms, other) (refused _ (Delivers-refl st))
    ]
  ]

  pub deliver-CarrierSent :
      (to_client : Option Client)
      → CarrierSent env m st (deliver env origin m to_client from_client st)
  deliver-CarrierSent none = deliver_carrier
  deliver-CarrierSent (some c) =
      let (law, failed) = deliver_client c in
      subst (λ ok. CarrierSent env m st ((deliver env origin m (some c) from_client st).0, ok))
        (sym failed) (refused _ law)

-- The state and the success that `route_message` ends with: nothing was accepted, or a carrier
-- accepted the message, or the auto-reply took it over.
pub data Routed (env : RouterEnv) (m : MsgQueueItem) (to_client : Option Client) (st : RouterState)
    : RouterState × Bool → Type 0 where
  sent : (r : RouterState × Bool) → CarrierSent env m st r → Routed env m to_client st r
  replied :
      (st' : RouterState)
      → auto_reply_hook env m to_client st ≡ some st'
      → Routed env m to_client st (st', true)

module _ (env : RouterEnv) (origin : Origin) (m : MsgQueueItem)
    (to_client from_client : Option Client) (st : RouterState) where
  after_hook-Routed : Routed env m to_client st (
      after_hook
        (auto_reply_hook env m to_client st)
        (deliver env origin m to_client from_client st))
  after_hook-Routed = elim (Option-cases (auto_reply_hook env m to_client st)) [
    | inl free ↦ rw free (sent _ (deliver-CarrierSent env origin m from_client st to_client))
    | inr (st', taken) ↦ rw taken (replied st' taken)
  ]

  unsent-Routed : Routed env m to_client st (st, false)
  unsent-Routed = sent _ (refused st (Delivers-refl st))

  pub route_message-Routed :
      Routed env m to_client st (route_message env origin m to_client from_client st)
  unfolding route_message
  route_message-Routed = elim (Bool-cases (is_missing (required origin to_client from_client))) [
    | inl missing ↦ rw missing unsent-Routed
    | inr known ↦
        elim (Bool-cases
          (is_blocked (check_message_limits env.limits from_client m.from m.type "outbound"))) [
            | inl blocked ↦ rw (known, blocked) unsent-Routed
            | inr free ↦ rw (known, free) after_hook-Routed
          ]
  ]

pub release_failed-Accounted :
    (origin : Origin) (convo : Text) (st : RouterState) (r : RouterState × Bool)
    → Accounted st r.0
    → Accounted st (release_failed origin convo r)
unfolding release_failed
release_failed-Accounted client convo st (st', true) h = h
release_failed-Accounted client convo st (st', false) h = h
release_failed-Accounted carrier convo st (st', _) h = h

pub Routed-Accounted :
    (env : RouterEnv) (m : MsgQueueItem) (to_client : Option Client) (st : RouterState)
    (r : RouterState × Bool)
    → Routed env m to_client st r
    → Accounted st r.0
Routed-Accounted env m to_client st r (sent _ (refused st' law)) = law.accounted
Routed-Accounted env m to_client st r (sent _ (accepted st' ack by c l law channels n)) = law
Routed-Accounted env m to_client st r (replied st' taken) =
    (auto_reply_hook-Replies env m to_client st taken).accounted

pub Routed-Exclusive :
    (env : RouterEnv) (m : MsgQueueItem) (to_client : Option Client) (st : RouterState)
    (r : RouterState × Bool)
    → Routed env m to_client st r
    → Exclusive st r.0
Routed-Exclusive env m to_client st r (sent _ (refused st' law)) = law.exclusive
Routed-Exclusive env m to_client st r (sent _ (accepted st' ack by c l law channels n)) =
    inr channels
Routed-Exclusive env m to_client st r (replied st' taken) =
    (auto_reply_hook-Replies env m to_client st taken).exclusive

-- A run that is not successful leaves the conversations alone.
pub Routed-convos :
    (env : RouterEnv) (m : MsgQueueItem) (to_client : Option Client) (st st' : RouterState)
    → Routed env m to_client st (st', false)
    → st'.convos ≡ st.convos
Routed-convos env m to_client st st' (sent _ (refused _ law)) = law.same_convos
