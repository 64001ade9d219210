-- ===== src/Router/Hook.antt =====
-- The auto-reply of router.go: the reply and the hook of `processMessage`.
use gomsggw.Base.{
  ℕ, Bool, true, false, not, [], Option, none, some, String, Text, ◌==◌, Eq_String, Eq_Text,
  if◌then◌else◌,
}
use gomsggw.Base.Strings.{trim_plus}
use gomsggw.AutoReply.{resolve_auto_reply, cooldown_of, allow}
use gomsggw.Client.{Client, ClientNumber}
use gomsggw.Message.{MsgQueueItem, sms_type, black_hole}
use gomsggw.Numbers.{get_client, get_client_carrier, get_number, find_number_settings_for_client}
use gomsggw.Router.{
  Route, RouterEnv, RouterState, carrier_sms, push_records, push_send, find_route_by_name,
  sms_record, outbound_record,
}

unfoldable pub reply_item : RouterEnv → Text → String → MsgQueueItem → MsgQueueItem
reply_item env text name original = record {
  to = original.from;
  from = original.to;
  received_timestamp = env.now;
  queued_timestamp = 0;
  type = sms_type;
  files = [];
  message = text;
  skip_number_check = true;
  log_id = env.new_log_id;
  source_carrier = name;
  source_ip = "";
  original_size_bytes = 0;
  delivery =
      some (record {
        error = "auto-reply — no retry";
        retry_time = env.now;
        retry_count = black_hole;
      });
}

unfoldable pub reply_answered :
    RouterEnv → String → MsgQueueItem → Bool → MsgQueueItem → RouterState → RouterState
reply_answered env name original false reply st = st
reply_answered env name original true reply st =
    push_records
      (outbound_record (sms_record reply) (get_client original.to env.visit_reply_client) false
        "carrier" "carrier_api" name)
      st

unfoldable pub reply_routed :
    RouterEnv → String → Text → MsgQueueItem → Option Route → RouterState → RouterState
unfolding reply_answered
reply_routed env name text original none st = st
reply_routed env name text original (some route) st =
    let reply = reply_item env text name original in
    let done = (route.send_sms reply).1 in
    reply_answered env name original done reply
      (push_send (record { kind = carrier_sms; target = name; item = reply; done = done }) st)

unfoldable pub send_auto_reply : RouterEnv → Text → MsgQueueItem → RouterState → RouterState
unfolding reply_routed
send_auto_reply env text original st =
    let name = get_client_carrier original.to env.visit_reply_carrier in
    if name == ""
    then st
    else reply_routed env name text original (find_route_by_name "carrier" name env.routes) st

abbrev pub stop_set : Option ClientNumber → Bool
stop_set none = false
stop_set (some n) = n.ignore_stop_cmd_sending

-- The reply is due: it is sent unless the pair of numbers cools down.
unfoldable pub reply_if_allowed : RouterEnv → Text → ℕ → MsgQueueItem → RouterState → RouterState
reply_if_allowed env text cooldown m st =
    let (last, allowed) = allow env.now m.from m.to cooldown st.last_sent in
    if allowed
    then send_auto_reply env text m (record st { last_sent = last })
    else record st { last_sent = last }

-- The auto-reply hook: `some` state where it takes the message over, `none` where it does not.
unfoldable pub auto_reply_hook :
    RouterEnv → MsgQueueItem → Option Client → RouterState → Option RouterState
auto_reply_hook env m none st = none
auto_reply_hook env m (some c) st =
    let ns = find_number_settings_for_client (some c) m.to in
    let (enabled, text) = resolve_auto_reply env.auto_reply ns in
    if trim_plus m.from == trim_plus m.to
    then none
    else if stop_set (get_number m.to env.visit_number)
    then none
    else if not enabled
    then none
    else some (reply_if_allowed env text (cooldown_of ns) m st)
