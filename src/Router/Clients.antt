-- ===== src/Router/Clients.antt =====
-- Deliveries to the gateway's own clients in `processMessage` of router.go, and the failover of
-- gateway.go.
use gomsggw.Base.{
  ℕ, Bool, List, [], ◌∷◌, Option, none, some, String, nat_eq, ◌==◌, Eq_String, if◌then◌else◌,
}
use gomsggw.Client.{Client, ClientFailover, ClientNumber, ClientSettings}
use gomsggw.Message.{MsgQueueItem}
use gomsggw.Numbers.{find_number}
use gomsggw.Router.{
  Origin, RouterEnv, RouterState, Send, smpp, webhook, mm4, push_records, push_send, retry_message,
  sms_record, mms_record, delivery_records,
}

abbrev number_webhook : Option ClientNumber → String
number_webhook none = ""
number_webhook (some n) = n.web_hook

abbrev client_webhook : Option ClientSettings → String
client_webhook none = ""
client_webhook (some s) = s.default_webhook

-- The webhook of the number, or else the client's default.
unfoldable pub webhook_url : Client → MsgQueueItem → String
webhook_url to_client m =
    let own = number_webhook (find_number m.to to_client.numbers) in
    if own == "" then client_webhook to_client.settings else own

unfoldable pub deliver_web_sms :
    RouterEnv → Origin → MsgQueueItem → Client → Option Client → RouterState → RouterState
unfolding webhook_url
deliver_web_sms env origin m to_client from_client st =
    let url = webhook_url to_client m in
    let done = env.dispatch_webhook url m in
    let sent = push_send (record { kind = webhook; target = url; item = m; done = done }) st in
    if url == ""
    then st
    else if done
    then push_records (delivery_records (sms_record m) to_client from_client "web" "webhook") sent
    else (retry_message env origin "failed to dispatch webhook" m sent).0

unfoldable pub deliver_web_mms :
    RouterEnv → Origin → MsgQueueItem → Client → Option Client → RouterState → RouterState
unfolding webhook_url
deliver_web_mms env origin m to_client from_client st =
    let url = webhook_url to_client m in
    let done = env.dispatch_webhook url m in
    let sent = push_send (record { kind = webhook; target = url; item = m; done = done }) st in
    if url == ""
    then st
    else if done
    then push_records (delivery_records (mms_record m) to_client from_client "web" "webhook") sent
    else (retry_message env origin "failed to dispatch MMS webhook" m sent).0

unfoldable pub deliver_mm4 :
    RouterEnv → Origin → MsgQueueItem → Client → Option Client → RouterState → RouterState
deliver_mm4 env origin m to_client from_client st =
    let done = env.send_mm4 m in
    let sent = push_send (record { kind = mm4; target = ""; item = m; done = done }) st in
    if done
    then push_records (delivery_records (mms_record m) to_client from_client "legacy" "mm4") sent
    else (retry_message env origin "failed to send MM4" m sent).0

unfoldable pub find_by_id : ℕ → List Client → Option Client
find_by_id id [] = none
find_by_id id (c ∷ cs) = let rest = find_by_id id cs in if nat_eq c.id id then some c else rest

abbrev pub active_client : (String → Bool) → Option Client → Option Client
active_client active none = none
active_client active (some c) = if active c.username then some c else none

abbrev pub first_client : Option Client → Option Client → Option Client
first_client none later = later
first_client (some c) later = some c

-- The first fallback client, in the order of the failovers, that is known and has a session.
unfoldable pub try_failovers : RouterEnv → List ClientFailover → Option Client
unfolding find_by_id
try_failovers env [] = none
try_failovers env (f ∷ fs) =
    first_client
      (active_client env.active_session (find_by_id f.fallback_client_id (env.visit_fallback f.id)))
      (try_failovers env fs)

unfoldable pub resolve_failover_session : RouterEnv → Client → Option Client
resolve_failover_session env primary = try_failovers env primary.failovers

abbrev pub smpp_send : RouterEnv → Client → MsgQueueItem → Send
smpp_send env c m = record {
  kind = smpp;
  target = c.username;
  item = m;
  done = env.send_smpp c.username m;
}

unfoldable pub smpp_records : MsgQueueItem → Client → Option Client → RouterState → RouterState
smpp_records m to_client from_client st =
    push_records (delivery_records (sms_record m) to_client from_client "legacy" "smpp") st

-- After a failed send to the client itself: one send to a fallback client with a session.
unfoldable pub smpp_second :
    RouterEnv
    → Origin
    → MsgQueueItem
    → Client
    → Option Client
    → Option Client
    → RouterState
    → RouterState
unfolding smpp_records
smpp_second env origin m to_client from_client none st =
    (retry_message env origin "failed to send SMPP" m st).0
smpp_second env origin m to_client from_client (some fallback) st =
    let sent = push_send (smpp_send env fallback m) st in
    if env.fallback_session fallback.username
    then (if env.send_smpp fallback.username m
        then smpp_records m to_client from_client sent
        else (retry_message env origin "failed to send SMPP" m sent).0)
    else (retry_message env origin "failed to send SMPP" m st).0

-- The send to the session that was found, which is that of `delivery`.
unfoldable pub smpp_first :
    RouterEnv → Origin → MsgQueueItem → Client → Option Client → Client → RouterState → RouterState
unfolding smpp_records smpp_second
smpp_first env origin m to_client from_client delivery st =
    let sent = push_send (smpp_send env delivery m) st in
    if env.send_smpp delivery.username m
    then smpp_records m to_client from_client sent
    else if nat_eq delivery.id to_client.id
    then smpp_second env origin m to_client from_client (resolve_failover_session env to_client)
        sent
    else (retry_message env origin "failed to send SMPP" m sent).0

-- The client has no session: its first fallback client takes its place.
unfoldable pub smpp_offline :
    RouterEnv
    → Origin
    → MsgQueueItem
    → Client
    → Option Client
    → Option Client
    → RouterState
    → RouterState
unfolding smpp_first
smpp_offline env origin m to_client from_client none st =
    (retry_message env origin "no SMPP session available (primary or failover)" m st).0
smpp_offline env origin m to_client from_client (some fallback) st =
    if env.fallback_session fallback.username
    then smpp_first env origin m to_client from_client fallback st
    else (retry_message env origin "failover session lookup failed" m st).0

unfoldable pub deliver_smpp :
    RouterEnv → Origin → MsgQueueItem → Client → Option Client → RouterState → RouterState
unfolding smpp_first smpp_offline
deliver_smpp env origin m to_client from_client st =
    if env.primary_session to_client.username
    then smpp_first env origin m to_client from_client to_client st
    else smpp_offline env origin m to_client from_client (resolve_failover_session env to_client) st
