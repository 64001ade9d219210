-- ===== src/Router/Replies.antt =====
-- What the auto-reply of router.go changes.
use gomsggw.Base.{
  ℕ, Bool, true, false, not, Option, none, some, String, Text, ◌==◌, Eq_String, Eq_Text, ◌≡◌, refl,
  subst, ap, inl, inr, Bool-cases, arith, if◌then◌else◌,
}
use gomsggw.Base.Strings.{trim_plus}
use gomsggw.AutoReply.{resolve_auto_reply, cooldown_of, allow}
use gomsggw.Client.{Client}
use gomsggw.Message.{MsgQueueItem}
use gomsggw.Numbers.{get_client_carrier, get_number, find_number_settings_for_client}
use gomsggw.Router.Accounting.{
  Accounted, Delivers, Delivers-refl, Exclusive, push_send-Delivers, push_records-Delivers,
  outbound_record-few,
}
use gomsggw.Router.Hook.{
  auto_reply_hook, reply_item, reply_answered, reply_routed, send_auto_reply, reply_if_allowed,
  stop_set,
}
use gomsggw.Router.{Route, RouterEnv, RouterState, Send, find_route_by_name, push_send}
use gomsggw.Router.Sends.{one-few}

module _ (env : RouterEnv) (text : Text) (original : MsgQueueItem) where
  reply_answered-Delivers :
      (name : String) (done : Bool) (reply : MsgQueueItem) (s : Send) (st : RouterState)
      → s.done ≡ done
      → Delivers st (reply_answered env name original done reply (push_send s st))
  unfolding reply_answered
  reply_answered-Delivers name true reply s st ok =
      push_records-Delivers s _ st ok (one-few (outbound_record-few _ _ _ _ _ _))
  reply_answered-Delivers name false reply s st failed = push_send-Delivers s st

  reply_routed-Delivers :
      (name : String) (route : Option Route) (st : RouterState)
      → Delivers st (reply_routed env name text original route st)
  unfolding reply_routed
  reply_routed-Delivers name none st = Delivers-refl st
  reply_routed-Delivers name (some route) st =
      reply_answered-Delivers name (route.send_sms (reply_item env text name original)).1 _ _ st
        refl

  pub send_auto_reply-Delivers :
      (st : RouterState) → Delivers st (send_auto_reply env text original st)
  unfolding send_auto_reply
  send_auto_reply-Delivers st =
      elim (Bool-cases (get_client_carrier original.to env.visit_reply_carrier == "")) [
        | inl none_found ↦ rw none_found (Delivers-refl st)
        | inr found ↦ rw found (
            reply_routed-Delivers (get_client_carrier original.to env.visit_reply_carrier)
              (find_route_by_name "carrier" (get_client_carrier original.to env.visit_reply_carrier)
                env.routes)
              st)
      ]

-- The auto-reply changes the cooldowns, and so keeps less than a delivery does.
pub record Replies (st st' : RouterState) : Type 0 where
  pub same_convos : st'.convos ≡ st.convos
  pub accounted : Accounted st st'
  pub exclusive : Exclusive st st'

pub reply_if_allowed-Replies :
    (env : RouterEnv) (text : Text) (cooldown : ℕ) (m : MsgQueueItem) (st : RouterState)
    → Replies st (reply_if_allowed env text cooldown m st)
unfolding reply_if_allowed
reply_if_allowed-Replies env text cooldown m st =
    elim (Bool-cases (allow env.now m.from m.to cooldown st.last_sent).1) [
      | inl due ↦ rw due (
          let law =
            send_auto_reply-Delivers env text m
              (record st { last_sent = (allow env.now m.from m.to cooldown st.last_sent).0 }) in
          record {
            same_convos = law.same_convos;
            accounted = law.accounted;
            exclusive = elim law.exclusive [
              | inl count ↦ inl count
              | inr channels ↦ inr (record {
                same_client_msg_chan = channels.same_client_msg_chan;
                same_carrier_msg_chan = channels.same_carrier_msg_chan;
              })
            ];
          })
      | inr early ↦
          rw early (record { same_convos = refl; accounted = omega arith; exclusive = inl refl })
    ]

if-eq-some {ℓ} :
    {A : Type ℓ} (b : Bool) (o : Option A) {a : A} → (if b then none else o) ≡ some a → o ≡ some a
if-eq-some true o h = absurd (ground (arith, h))
if-eq-some false o h = h

pub auto_reply_hook-Replies :
    (env : RouterEnv) (m : MsgQueueItem) (c : Option Client) (st : RouterState) {st' : RouterState}
    → auto_reply_hook env m c st ≡ some st'
    → Replies st st'
unfolding auto_reply_hook
auto_reply_hook-Replies env m none st h = absurd (ground (arith, h))
auto_reply_hook-Replies env m (some c) st {st'} h =
    let ns = find_number_settings_for_client (some c) m.to in
    let (enabled, text) = resolve_auto_reply env.auto_reply ns in
    let reply = some (reply_if_allowed env text (cooldown_of ns) m st) in
    let off = if not enabled then none else reply in
    let stopped = if stop_set (get_number m.to env.visit_number) then none else off in
    let taken = if-eq-some (not enabled) reply (
      if-eq-some (stop_set (get_number m.to env.visit_number)) off
        (if-eq-some (trim_plus m.from == trim_plus m.to) stopped h)) in
    subst (Replies st) (ap (λ o. elim o [ none ↦ st | some x ↦ x ]) taken)
      (reply_if_allowed-Replies env text (cooldown_of ns) m st)
