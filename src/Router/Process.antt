-- ===== src/Router/Process.antt =====
-- `processMessage` of router.go as a whole.
use gomsggw.Base.{
  Bool, true, false, not, ◌++◌, Option, none, some, Text, ◌==◌, Eq_String, if◌then◌else◌,
}
use gomsggw.Client.{Client}
use gomsggw.Convo.{handle_failure, compute_correlation_key}
use gomsggw.Limits.Check.{LimitCheckResult, check_message_limits}
use gomsggw.Message.{MsgQueueItem, sms_type, mms_type}
use gomsggw.Numbers.{format_to_e164, find_client_by_number}
use gomsggw.Router.Carriers.{send_carrier_sms, send_carrier_mms}
use gomsggw.Router.Hook.{auto_reply_hook}
use gomsggw.Router.Clients.{deliver_web_sms, deliver_web_mms, deliver_mm4, deliver_smpp}
use gomsggw.Router.{Origin, client, carrier, RouterEnv, RouterState}

abbrev pub is_web : Client → Bool
is_web c = c.type == "web"

-- The `switch m.Type`: the state, and whether the processing was successful.
unfoldable pub deliver_sms :
    RouterEnv
    → Origin
    → MsgQueueItem
    → Option Client
    → Option Client
    → RouterState
    → RouterState × Bool
deliver_sms env origin m none from_client st = send_carrier_sms env origin m from_client st
deliver_sms env origin m (some to_client) from_client st =
    if is_web to_client
    then (deliver_web_sms env origin m to_client from_client st, false)
    else (deliver_smpp env origin m to_client from_client st, false)

unfoldable pub deliver_mms :
    RouterEnv → Origin → MsgQueueItem → Option Client → Option Client → RouterState → RouterState
deliver_mms env origin m none from_client st = send_carrier_mms env origin m from_client st
deliver_mms env origin m (some to_client) from_client st =
    if is_web to_client
    then deliver_web_mms env origin m to_client from_client st
    else deliver_mm4 env origin m to_client from_client st

unfoldable pub deliver :
    RouterEnv
    → Origin
    → MsgQueueItem
    → Option Client
    → Option Client
    → RouterState
    → RouterState × Bool
unfolding deliver_sms deliver_mms
deliver env origin m to_client from_client st =
    if m.type == sms_type
    then deliver_sms env origin m to_client from_client st
    else if m.type == mms_type
    then (deliver_mms env origin m to_client from_client st, false)
    else (st, false)

-- The hook has taken the message over, or it is delivered.
abbrev pub after_hook : Option RouterState → RouterState × Bool → RouterState × Bool
after_hook (some st) delivered = (st, true)
after_hook none delivered = delivered

-- `limitResult != nil && !limitResult.Allowed`
abbrev pub is_blocked : Option LimitCheckResult → Bool
is_blocked none = false
is_blocked (some r) = not r.allowed

-- The client that a message must have: its sender's if a client sent it, else its receiver's.
abbrev pub required : Origin → Option Client → Option Client → Option Client
required client to_client from_client = from_client
required carrier to_client from_client = to_client

abbrev pub is_missing : Option Client → Bool
is_missing none = true
is_missing (some _) = false

-- The body of `processMessage` on formatted numbers, with the two clients that were found.
unfoldable pub route_message :
    RouterEnv
    → Origin
    → MsgQueueItem
    → Option Client
    → Option Client
    → RouterState
    → RouterState × Bool
route_message env origin m to_client from_client st =
    let blocked =
      is_blocked (check_message_limits env.limits from_client m.from m.type "outbound") in
    if is_missing (required origin to_client from_client)
    then (st, false)
    else if blocked
    then (st, false)
    else after_hook (auto_reply_hook env m to_client st)
        (deliver env origin m to_client from_client st)

-- The deferred call: a client's message that was not successful releases its conversation.
unfoldable pub release_failed : Origin → Text → RouterState × Bool → RouterState
release_failed client convo (st, false) =
    let (convos, out) = handle_failure convo st.convos in
    record st { convos = convos; client_msg_chan = st.client_msg_chan ++ out }
release_failed client convo (st, true) = st
release_failed carrier convo (st, _) = st

unfoldable pub formatted : MsgQueueItem → MsgQueueItem
formatted m = record m { to = (format_to_e164 m.to).0; from = (format_to_e164 m.from).0 }

unfoldable pub process_message : RouterEnv → Origin → MsgQueueItem → RouterState → RouterState
process_message env origin m st =
    let f = formatted m in
    release_failed origin (compute_correlation_key f.from f.to) (
      route_message env origin f (find_client_by_number f.to env.visit_to)
        (find_client_by_number f.from env.visit_from) st)
