-- ===== src/Examples.antt =====
-- Concrete messages, clients and environments for the examples of the modules below, which run the
-- definitions that model convo.go, router.go, clients.go, msg_queue.go and smpp/coding.
mod Batches
mod Convos
mod Gsm7Texts
mod Hooks
mod Keys
mod Limiter
mod Mms
mod MmsSends
mod Routing
mod SmppSessions
mod Texts
mod WebSends
use gomsggw.Base.{
  ℕ, ◌-◌, ◌%◌, Bool, true, false, List, [], ◌∷◌, Option, none, some, String, Text, codes,
}
use gomsggw.AutoReply.{AutoReplyConfig}
use gomsggw.Client.{Client, ClientNumber, ClientSettings, MsgRecordRow}
use gomsggw.Convo.{new_convo_manager}
use gomsggw.Limits.{Calendar, Period}
use gomsggw.Limits.Check.{LimitEnv}
use gomsggw.Message.{MsgQueueItem, MsgQueueDelivery, sms_type}
use gomsggw.Router.{Route, RouterEnv, RouterState}

abbrev pub sms : String → String → String → MsgQueueItem
sms from to body = record {
  to = codes to;
  from = codes from;
  received_timestamp = 0;
  queued_timestamp = 0;
  type = sms_type;
  files = [];
  message = codes body;
  skip_number_check = false;
  log_id = "log";
  source_carrier = "";
  source_ip = "";
  original_size_bytes = 0;
  delivery = none;
}

abbrev pub alice : String
alice = "12505550100"

abbrev pub bob : String
bob = "12505550199"

abbrev pub settings_with_burst : ℕ → ClientSettings
settings_with_burst burst = record {
  auth_method = "basic";
  api_format = "generic";
  disable_message_splitting = false;
  webhook_retries = 3;
  webhook_timeout_secs = 10;
  include_raw_segments = false;
  default_webhook = "";
  sms_burst_limit = burst;
  sms_daily_limit = 0;
  sms_monthly_limit = 0;
  mms_burst_limit = 0;
  mms_daily_limit = 0;
  mms_monthly_limit = 0;
  limit_both = false;
}

abbrev pub number_of : ℕ → String → ClientNumber
number_of client_id number = record {
  id = 10;
  client_id = client_id;
  number = codes number;
  carrier = "telnyx";
  tag = "";
  group = "";
  ignore_stop_cmd_sending = false;
  web_hook = "";
  settings = none;
}

-- A legacy client with one number and a burst limit.
abbrev pub client_of : ℕ → String → ℕ → Client
client_of id number burst = record {
  id = id;
  username = number;
  password = "";
  address = "";
  name = "";
  type = "legacy";
  timezone = "UTC";
  log_privacy = false;
  settings = some (settings_with_burst burst);
  numbers = number_of id number ∷ [];
  failovers = [];
}

abbrev pub simple_calendar : Calendar
simple_calendar = record {
  Location = Unit;
  utc = tt;
  load_location = λ name. none;
  midnight = λ loc t. t - t % 86_400_000_000_000;
  first_of_month = λ loc t. t - t % 2_592_000_000_000_000;
}

abbrev pub row_from : ℕ → String → MsgRecordRow
row_from client_id number = record {
  client_id = client_id;
  to = codes "12505550111";
  from = codes number;
  received_timestamp = 100;
  type = sms_type;
  direction = "outbound";
}

abbrev pub limit_env : LimitEnv
limit_env = record {
  calendar = simple_calendar;
  table = λ period. some (row_from 1 alice ∷ row_from 1 alice ∷ []);
  clock = λ period. 200;
}

abbrev pub telnyx : Route
telnyx = record {
  type = "carrier";
  endpoint = "telnyx";
  send_sms = λ m. ("ack1", true);
  send_mms = λ m. ("ack2", true);
}

-- The gateway has the given clients; the carrier and the sessions accept every message.
abbrev pub env_with : List Client → RouterEnv
env_with clients = record {
  limits = limit_env;
  auto_reply = record { enabled = false; default_msg = [] };
  routes = telnyx ∷ [];
  visit_to = clients;
  visit_from = clients;
  visit_number = clients;
  visit_carrier = clients;
  visit_reply_carrier = clients;
  visit_reply_client = clients;
  visit_fallback = λ id. clients;
  primary_session = λ name. true;
  active_session = λ name. true;
  fallback_session = λ name. true;
  send_smpp = λ name m. true;
  dispatch_webhook = λ url m. true;
  send_mm4 = λ m. true;
  new_log_id = "reply";
  now = 1000;
}

abbrev pub start : RouterState
start = record {
  convos = new_convo_manager;
  client_msg_chan = [];
  carrier_msg_chan = [];
  records = [];
  last_sent = [];
  sends = [];
}
