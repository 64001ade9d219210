-- ===== src/Router/Carriers.antt =====
-- Sends to a carrier in `processMessage` of router.go.
use gomsggw.Base.{
  ℕ, Bool, true, false, [], ◌++◌, Option, none, some, String, codes, ◌==◌, Eq_String, Eq_Text,
  if◌then◌else◌,
}
use gomsggw.Client.{Client}
use gomsggw.Convo.{set_expected_ack, compute_correlation_key}
use gomsggw.Message.{MsgQueueItem, sms_type, mms_type, black_hole}
use gomsggw.Numbers.{get_client_carrier}
use gomsggw.Router.{
  Origin, Route, RouterEnv, RouterState, carrier_sms, carrier_mms, push_carrier, push_records,
  push_send, retry_message, find_route_by_name, sms_record, mms_record, outbound_record,
}

-- A message back to the sender, which is never retried.
unfoldable pub notice : RouterEnv → String → String → MsgQueueItem → MsgQueueItem
notice env type body m = record {
  to = m.from;
  from = m.to;
  received_timestamp = 0;
  queued_timestamp = 0;
  type = type;
  files = [];
  message = codes body ++ codes m.log_id;
  skip_number_check = false;
  log_id = m.log_id;
  source_carrier = "";
  source_ip = "";
  original_size_bytes = 0;
  delivery = some (record {
    error = "discard after first attempt";
    retry_time = env.now;
    retry_count = black_hole;
  });
}

abbrev pub stop_body : String
stop_body =
    "Blocked due to STOP message. Please try again later or contact our support if the issue persists. ID: "

abbrev pub error_body : String
error_body =
    "An error occurred. Please try again later or contact our support if the issue persists. ID: "

-- A carrier refused the message: the sender is told of a STOP, and of a message that is discarded.
unfoldable pub carrier_refused :
    RouterEnv → Origin → String → String → String → MsgQueueItem → RouterState → RouterState
carrier_refused env origin type err ack m st =
    let (retried, discarded) = retry_message env origin err m st in
    if ack == "STOP_MESSAGE"
    then push_carrier (notice env type stop_body m) st
    else if discarded
    then push_carrier (notice env type error_body m) retried
    else retried

-- `10*time.Second`
abbrev pub ack_timeout : ℕ
ack_timeout = 10_000_000_000

-- The handler has answered; the state, and whether the processing was successful.
unfoldable pub carrier_sms_answered :
    RouterEnv
    → Origin
    → MsgQueueItem
    → Option Client
    → String
    → String × Bool
    → RouterState
    → RouterState × Bool
unfolding carrier_refused
carrier_sms_answered env origin m from_client name (ack, true) st =
    let convo = compute_correlation_key m.from m.to in
    let expecting = record st { convos = set_expected_ack convo ack ack_timeout st.convos } in
    (
      push_records (outbound_record (sms_record m) from_client false "carrier" "carrier_api" name)
          expecting,
      true,
    )
carrier_sms_answered env origin m from_client name (ack, false) st =
    (carrier_refused env origin sms_type "failed to send SMPP to carrier" ack m st, false)

unfoldable pub carrier_sms_routed :
    RouterEnv
    → Origin
    → MsgQueueItem
    → Option Client
    → String
    → Option Route
    → RouterState
    → RouterState × Bool
unfolding carrier_sms_answered
carrier_sms_routed env origin m from_client name none st = (st, false)
carrier_sms_routed env origin m from_client name (some route) st =
    let answer = route.send_sms m in
    carrier_sms_answered env origin m from_client name answer
      (push_send (record { kind = carrier_sms; target = name; item = m; done = answer.1 }) st)

unfoldable pub send_carrier_sms :
    RouterEnv → Origin → MsgQueueItem → Option Client → RouterState → RouterState × Bool
unfolding carrier_sms_routed
send_carrier_sms env origin m from_client st =
    let name = get_client_carrier m.from env.visit_carrier in
    if name == ""
    then (st, false)
    else carrier_sms_routed env origin m from_client name
        (find_route_by_name "carrier" name env.routes) st

unfoldable pub carrier_mms_answered :
    RouterEnv
    → Origin
    → MsgQueueItem
    → Option Client
    → String
    → String × Bool
    → RouterState
    → RouterState
unfolding carrier_refused
carrier_mms_answered env origin m from_client name (ack, true) st =
    push_records (outbound_record (mms_record m) from_client false "carrier" "carrier_api" name) st
carrier_mms_answered env origin m from_client name (ack, false) st =
    carrier_refused env origin mms_type "failed to send MMS to carrier" ack m st

unfoldable pub carrier_mms_routed :
    RouterEnv
    → Origin
    → MsgQueueItem
    → Option Client
    → String
    → Option Route
    → RouterState
    → RouterState
unfolding carrier_mms_answered
carrier_mms_routed env origin m from_client name none st = st
carrier_mms_routed env origin m from_client name (some route) st =
    let answer = route.send_mms m in
    carrier_mms_answered env origin m from_client name answer
      (push_send (record { kind = carrier_mms; target = name; item = m; done = answer.1 }) st)

unfoldable pub send_carrier_mms :
    RouterEnv → Origin → MsgQueueItem → Option Client → RouterState → RouterState
unfolding carrier_mms_routed
send_carrier_mms env origin m from_client st =
    let name = get_client_carrier m.from env.visit_carrier in
    if name == ""
    then st
    else carrier_mms_routed env origin m from_client name
        (find_route_by_name "carrier" name env.routes) st
