-- ===== src/Router/Sends.antt =====
-- What the sends of router.go to a carrier change.
use gomsggw.Base.{
  ℕ, suc, ◌≤◌, Bool, true, false, [], ◌∷◌, Option, none, some, String, ◌==◌, Eq_String, Eq_Text,
  ◌≡◌, refl, ap, inl, inr, Bool-cases, arith,
}
use gomsggw.Client.{Client}
use gomsggw.Convo.{set_expected_ack, compute_correlation_key}
use gomsggw.Message.{MsgQueueItem, retry}
use gomsggw.Numbers.{get_client_carrier}
use gomsggw.Router.Accounting.{
  Accounted, Delivers, Delivers-refl, Delivers-trans, failed_then-Delivers, SameChannels,
  push_records-Delivers, retry_message-Delivers, outbound_record-few, count_done, count_done-append,
}
use gomsggw.Router.Carriers.{
  ack_timeout, carrier_refused, carrier_sms_answered, carrier_sms_routed, send_carrier_sms,
  carrier_mms_answered, carrier_mms_routed, send_carrier_mms,
}
use gomsggw.Router.{
  client, carrier, push_queued, Origin, Route, RouterEnv, RouterState, Send, carrier_sms,
  find_route_by_name, push_carrier, push_send, retry_message, outbound_record, sms_record,
}

push_carrier-Delivers : (m : MsgQueueItem) (st : RouterState) → Delivers st (push_carrier m st)
push_carrier-Delivers m st = record {
  same_convos = refl;
  same_last_sent = refl;
  accounted = omega arith;
  exclusive = inl refl;
}

pub one-few : {n : ℕ} → n ≤ 1 → n ≤ 2
one-few h = omega (arith, h)

push_queued-sends :
    (origin : Origin) (o : Option MsgQueueItem) (st : RouterState)
    → (push_queued origin o st).sends ≡ st.sends
push_queued-sends origin none st = refl
push_queued-sends client (some m) st = refl
push_queued-sends carrier (some m) st = refl

retry_message-sends :
    (env : RouterEnv) (origin : Origin) (err : String) (m : MsgQueueItem) (st : RouterState)
    → (retry_message env origin err m st).0.sends ≡ st.sends
unfolding retry_message
retry_message-sends env origin err m st = push_queued-sends origin (retry env.now err m).queued st

pub carrier_refused-Delivers :
    (env : RouterEnv) (origin : Origin) (type err ack : String) (m : MsgQueueItem)
    (st : RouterState)
    → Delivers st (carrier_refused env origin type err ack m st)
unfolding carrier_refused
carrier_refused-Delivers env origin type err ack m st = elim (Bool-cases (ack == "STOP_MESSAGE")) [
  | inl stop ↦ rw stop (push_carrier-Delivers _ st)
  | inr other ↦ rw other (elim (Bool-cases (retry_message env origin err m st).1) [
    | inl lost ↦ rw lost (
        Delivers-trans (retry_message-Delivers env origin err m st) (push_carrier-Delivers _ _)
          (inl (ap count_done (retry_message-sends env origin err m st))))
    | inr kept ↦ rw kept (retry_message-Delivers env origin err m st)
  ])
]

-- The carrier of the sender's number accepted the SMS with an ack.
pub record AcceptedBy (env : RouterEnv) (m : MsgQueueItem) (ack : String) : Type 0 where
  pub route : Route
  pub its_route :
      find_route_by_name "carrier" (get_client_carrier m.from env.visit_carrier) env.routes
      ≡ some route
  pub answer : route.send_sms m ≡ (ack, true)

-- A send to a carrier that fails leaves the conversations alone. One that succeeds makes the
-- conversation of the message wait for the carrier's ack.
pub data CarrierSent (env : RouterEnv) (m : MsgQueueItem) (st : RouterState)
    : RouterState × Bool → Type 0 where
  refused : (st' : RouterState) → Delivers st st' → CarrierSent env m st (st', false)
  accepted :
      (st' : RouterState) (ack : String)
      → AcceptedBy env m ack
      → st'.convos
        ≡ set_expected_ack (compute_correlation_key m.from m.to) ack ack_timeout st.convos
      → st'.last_sent ≡ st.last_sent
      → Accounted st st'
      → SameChannels st st'
      → suc (count_done st.sends) ≡ count_done st'.sends
      → CarrierSent env m st (st', true)

module _ (env : RouterEnv) (origin : Origin) (m : MsgQueueItem) (from_client : Option Client) where
  carrier_sms_answered-CarrierSent :
      (name : String) (answer : String × Bool) (st : RouterState)
      → ((ack : String) → answer ≡ (ack, true) → AcceptedBy env m ack)
      → CarrierSent env m st (
          carrier_sms_answered env origin m from_client name answer (
            push_send (record { kind = carrier_sms; target = name; item = m; done = answer.1 }) st))
  unfolding carrier_sms_answered
  carrier_sms_answered-CarrierSent name (ack, true) st by =
      let sent =
        push_records-Delivers (record { kind = carrier_sms; target = name; item = m; done = true })
          (outbound_record (sms_record m) from_client false "carrier" "carrier_api" name) st refl
          (one-few (outbound_record-few _ _ _ _ _ _)) in
      accepted _ ack (by ack refl) refl refl sent.accounted
        (record { same_client_msg_chan = refl; same_carrier_msg_chan = refl })
        (omega (
          arith,
          count_done-append st.sends
              (record { kind = carrier_sms; target = name; item = m; done = true } ∷ []),
        ))
  carrier_sms_answered-CarrierSent name (ack, false) st by =
      refused _ (failed_then-Delivers _ st refl (carrier_refused-Delivers env origin _ _ ack m _))

  carrier_sms_routed-CarrierSent :
      (name : String) (route : Option Route) (st : RouterState)
      → find_route_by_name "carrier" (get_client_carrier m.from env.visit_carrier) env.routes
        ≡ route
      → CarrierSent env m st (carrier_sms_routed env origin m from_client name route st)
  unfolding carrier_sms_routed
  carrier_sms_routed-CarrierSent name none st e = refused st (Delivers-refl st)
  carrier_sms_routed-CarrierSent name (some route) st e =
      carrier_sms_answered-CarrierSent name (route.send_sms m) st
        (λ ack answer. record { route = route; its_route = e; answer = answer })

  pub send_carrier_sms-CarrierSent :
      (st : RouterState) → CarrierSent env m st (send_carrier_sms env origin m from_client st)
  unfolding send_carrier_sms
  send_carrier_sms-CarrierSent st =
      elim (Bool-cases (get_client_carrier m.from env.visit_carrier == "")) [
        | inl none_found ↦ rw none_found (refused st (Delivers-refl st))
        | inr found ↦ rw found (
            carrier_sms_routed-CarrierSent (get_client_carrier m.from env.visit_carrier)
              (find_route_by_name "carrier" (get_client_carrier m.from env.visit_carrier)
                env.routes)
              st refl)
      ]

  carrier_mms_answered-Delivers :
      (name : String) (answer : String × Bool) (s : Send) (st : RouterState)
      → s.done ≡ answer.1
      → Delivers st (carrier_mms_answered env origin m from_client name answer (push_send s st))
  unfolding carrier_mms_answered
  carrier_mms_answered-Delivers name (ack, true) s st ok =
      push_records-Delivers s _ st ok (one-few (outbound_record-few _ _ _ _ _ _))
  carrier_mms_answered-Delivers name (ack, false) s st failed =
      failed_then-Delivers s st failed (carrier_refused-Delivers env origin _ _ ack m _)

  carrier_mms_routed-Delivers :
      (name : String) (route : Option Route) (st : RouterState)
      → Delivers st (carrier_mms_routed env origin m from_client name route st)
  unfolding carrier_mms_routed
  carrier_mms_routed-Delivers name none st = Delivers-refl st
  carrier_mms_routed-Delivers name (some route) st =
      carrier_mms_answered-Delivers name (route.send_mms m) _ st refl

  pub send_carrier_mms-Delivers :
      (st : RouterState) → Delivers st (send_carrier_mms env origin m from_client st)
  unfolding send_carrier_mms
  send_carrier_mms-Delivers st =
      elim (Bool-cases (get_client_carrier m.from env.visit_carrier == "")) [
        | inl none_found ↦ rw none_found (Delivers-refl st)
        | inr found ↦ rw found (
            carrier_mms_routed-Delivers (get_client_carrier m.from env.visit_carrier)
              (find_route_by_name "carrier" (get_client_carrier m.from env.visit_carrier)
                env.routes)
              st)
      ]
