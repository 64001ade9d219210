-- ===== src/Router/Deliveries.antt =====
-- What the deliveries of router.go to the clients change.
use gomsggw.Base.{Option, none, some, nat_eq, ◌==◌, Eq_String, refl, inl, inr, Bool-cases}
use gomsggw.Client.{Client}
use gomsggw.Message.{MsgQueueItem}
use gomsggw.Router.{Origin, RouterEnv, RouterState}
use gomsggw.Router.Clients.{
  deliver_web_sms, deliver_web_mms, deliver_mm4, deliver_smpp, smpp_first, smpp_second,
  smpp_offline, smpp_records, webhook_url,
}
use gomsggw.Router.Accounting.{
  Delivers, Delivers-refl, delivery_records-few, failed_then-Delivers, push_records-Delivers,
  retry_message-Delivers,
}

module _ (env : RouterEnv) (origin : Origin) (m : MsgQueueItem) (to_client : Client)
    (from_client : Option Client) where
  pub deliver_web_sms-Delivers :
      (st : RouterState) → Delivers st (deliver_web_sms env origin m to_client from_client st)
  unfolding deliver_web_sms
  deliver_web_sms-Delivers st = elim (Bool-cases (webhook_url to_client m == "")) [
    | inl e ↦ rw e (Delivers-refl st)
    | inr n ↦ elim (Bool-cases (env.dispatch_webhook (webhook_url to_client m) m)) [
      | inl ok ↦ rw (n, ok) (push_records-Delivers _ _ st refl (delivery_records-few _ _ _ _ _))
      | inr failed ↦
          rw (n, failed) (failed_then-Delivers _ st refl (retry_message-Delivers env origin _ m _))
    ]
  ]

  pub deliver_web_mms-Delivers :
      (st : RouterState) → Delivers st (deliver_web_mms env origin m to_client from_client st)
  unfolding deliver_web_mms
  deliver_web_mms-Delivers st = elim (Bool-cases (webhook_url to_client m == "")) [
    | inl e ↦ rw e (Delivers-refl st)
    | inr n ↦ elim (Bool-cases (env.dispatch_webhook (webhook_url to_client m) m)) [
      | inl ok ↦ rw (n, ok) (push_records-Delivers _ _ st refl (delivery_records-few _ _ _ _ _))
      | inr failed ↦
          rw (n, failed) (failed_then-Delivers _ st refl (retry_message-Delivers env origin _ m _))
    ]
  ]

  pub deliver_mm4-Delivers :
      (st : RouterState) → Delivers st (deliver_mm4 env origin m to_client from_client st)
  unfolding deliver_mm4
  deliver_mm4-Delivers st = elim (Bool-cases (env.send_mm4 m)) [
    | inl ok ↦ rw ok (push_records-Delivers _ _ st refl (delivery_records-few _ _ _ _ _))
    | inr failed ↦
        rw failed (failed_then-Delivers _ st refl (retry_message-Delivers env origin _ m _))
  ]

  smpp_second-Delivers :
      (fallback : Option Client) (st : RouterState)
      → Delivers st (smpp_second env origin m to_client from_client fallback st)
  unfolding smpp_second smpp_records
  smpp_second-Delivers none st = retry_message-Delivers env origin _ m st
  smpp_second-Delivers (some c) st = elim (Bool-cases (env.fallback_session c.username)) [
    | inr gone ↦ rw gone (retry_message-Delivers env origin _ m st)
    | inl here ↦ elim (Bool-cases (env.send_smpp c.username m)) [
      | inl ok ↦ rw (here, ok) (push_records-Delivers _ _ st refl (delivery_records-few _ _ _ _ _))
      | inr failed ↦
          rw (here, failed)
            (failed_then-Delivers _ st refl (retry_message-Delivers env origin _ m _))
    ]
  ]

  smpp_first-Delivers :
      (c : Client) (st : RouterState)
      → Delivers st (smpp_first env origin m to_client from_client c st)
  unfolding smpp_first smpp_records
  smpp_first-Delivers c st = elim (Bool-cases (env.send_smpp c.username m)) [
    | inl ok ↦ rw ok (push_records-Delivers _ _ st refl (delivery_records-few _ _ _ _ _))
    | inr failed ↦ elim (Bool-cases (nat_eq c.id to_client.id)) [
      | inl own ↦ rw (failed, own) (failed_then-Delivers _ st refl (smpp_second-Delivers _ _))
      | inr other ↦
          rw (failed, other)
            (failed_then-Delivers _ st refl (retry_message-Delivers env origin _ m _))
    ]
  ]

  smpp_offline-Delivers :
      (fallback : Option Client) (st : RouterState)
      → Delivers st (smpp_offline env origin m to_client from_client fallback st)
  unfolding smpp_offline
  smpp_offline-Delivers none st = retry_message-Delivers env origin _ m st
  smpp_offline-Delivers (some c) st = elim (Bool-cases (env.fallback_session c.username)) [
    | inl here ↦ rw here (smpp_first-Delivers c st)
    | inr gone ↦ rw gone (retry_message-Delivers env origin _ m st)
  ]

  pub deliver_smpp-Delivers :
      (st : RouterState) → Delivers st (deliver_smpp env origin m to_client from_client st)
  unfolding deliver_smpp
  deliver_smpp-Delivers st = elim (Bool-cases (env.primary_session to_client.username)) [
    | inl here ↦ rw here (smpp_first-Delivers to_client st)
    | inr gone ↦ rw gone (smpp_offline-Delivers _ st)
  ]
