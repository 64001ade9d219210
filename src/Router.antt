-- ===== src/Router.antt =====
-- router.go: the state that a message passes through, what one run takes from outside, and the
-- small steps of `processMessage`. Logging is left out. The channels are unbounded lists here, in
-- the order of the sends.
pub mod Clients
pub mod Carriers
pub mod Hook
pub mod Process
pub mod Accounting
pub mod Deliveries
pub mod Sends
pub mod Replies
pub mod Outcomes
pub mod Runs
pub mod Requeue
use gomsggw.Base.{
  ℕ, Bool, true, false, not, ◌&&◌, List, [], ◌∷◌, ◌++◌, Option, none, some, String, Text, codes,
  nat_eq, length, ◌==◌, Eq_String, Eq_ℕ, if◌then◌else◌, option_list,
}
use gomsggw.AutoReply.{AutoReplyConfig, LastSent}
use gomsggw.Client.{Client, ClientFailover, ClientNumber, ClientSettings, MsgRecord}
use gomsggw.Coding.{get_sms_encoding, get_sms_segment_count, utf8_len}
use gomsggw.Convo.{ConvoManager}
use gomsggw.Limits.Check.{LimitEnv}
use gomsggw.Message.{MsgQueueItem, MsgQueueDelivery, RetryResult, retry, black_hole}
use gomsggw.Numbers.{find_number}

pub data Origin : Type 0 where
  client carrier : Origin

-- A carrier's handler: the ack id that a send returns, and whether it returns no error.
pub record Route : Type 0 where
  pub type : String
  pub endpoint : String
  pub send_sms : MsgQueueItem → String × Bool
  pub send_mms : MsgQueueItem → String × Bool

pub data SendKind : Type 0 where
  smpp webhook mm4 carrier_sms carrier_mms : SendKind

-- One attempt to hand a message over, and whether it succeeded.
pub record Send : Type 0 where
  pub kind : SendKind
  pub target : String
  pub item : MsgQueueItem
  pub done : Bool

pub record RouterState : Type 0 where
  pub convos : ConvoManager
  pub client_msg_chan : List MsgQueueItem
  pub carrier_msg_chan : List MsgQueueItem
  pub records : List MsgRecord
  pub last_sent : LastSent
  pub sends : List Send

-- What a run of `processMessage` takes from outside: the order in which each loop visits the map
-- of the clients, the sessions that each lookup finds, the answers of the network, the clock.
pub record RouterEnv : Type 1 where
  pub limits : LimitEnv
  pub auto_reply : AutoReplyConfig
  pub routes : List Route
  pub visit_to : List Client
  pub visit_from : List Client
  pub visit_number : List Client
  pub visit_carrier : List Client
  pub visit_reply_carrier : List Client
  pub visit_reply_client : List Client
  pub visit_fallback : ℕ → List Client
  pub primary_session : String → Bool
  pub active_session : String → Bool
  pub fallback_session : String → Bool
  pub send_smpp : String → MsgQueueItem → Bool
  pub dispatch_webhook : String → MsgQueueItem → Bool
  pub send_mm4 : MsgQueueItem → Bool
  pub new_log_id : String
  pub now : ℕ

abbrev pub push_client : MsgQueueItem → RouterState → RouterState
push_client m st = record st { client_msg_chan = st.client_msg_chan ++ (m ∷ []) }

abbrev pub push_carrier : MsgQueueItem → RouterState → RouterState
push_carrier m st = record st { carrier_msg_chan = st.carrier_msg_chan ++ (m ∷ []) }

abbrev pub push_records : List MsgRecord → RouterState → RouterState
push_records rs st = record st { records = st.records ++ rs }

abbrev pub push_send : Send → RouterState → RouterState
push_send s st = record st { sends = st.sends ++ (s ∷ []) }

-- The channel that a retry goes to.
abbrev pub push_origin : Origin → MsgQueueItem → RouterState → RouterState
push_origin client m st = push_client m st
push_origin carrier m st = push_carrier m st

abbrev pub push_queued : Origin → Option MsgQueueItem → RouterState → RouterState
push_queued origin none st = st
push_queued origin (some m) st = push_origin origin m st

-- `m.Retry(err, retryChan)`: the state, and whether the message is discarded
unfoldable pub retry_message :
    RouterEnv → Origin → String → MsgQueueItem → RouterState → RouterState × Bool
retry_message env origin err m st =
    let r = retry env.now err m in (push_queued origin r.queued st, r.discarded)

unfoldable pub find_route_by_name : String → String → List Route → Option Route
find_route_by_name type name [] = none
find_route_by_name type name (r ∷ routes) =
    let rest = find_route_by_name type name routes in
    if r.type == type && r.endpoint == name then some r else rest

abbrev pub carrier_name_of : Option Client → MsgQueueItem → String
carrier_name_of none m = m.source_carrier
carrier_name_of (some _) m = ""

abbrev pub from_client_type_of : Option Client → String
from_client_type_of none = "carrier"
from_client_type_of (some c) = c.type

abbrev pub is_client : Option Client → Bool
is_client none = false
is_client (some _) = true

-- The fields that every record of an SMS has.
unfoldable pub sms_record : MsgQueueItem → MsgRecord
sms_record m = record {
  msg_queue_item = m;
  client_id = 0;
  carrier = "";
  internal = false;
  direction = "";
  from_client_type = "";
  to_client_type = "";
  delivery_method = "";
  encoding = get_sms_encoding m.message;
  source_ip = m.source_ip;
  total_segments = get_sms_segment_count m.message;
  original_bytes_length = utf8_len m.message;
  original_size_bytes = 0;
  transcoded_size_bytes = 0;
  media_count = 0;
  transcoding_performed = false;
}

-- The fields that every record of an MMS has.
unfoldable pub mms_record : MsgQueueItem → MsgRecord
mms_record m = record {
  msg_queue_item = m;
  client_id = 0;
  carrier = "";
  internal = false;
  direction = "";
  from_client_type = "";
  to_client_type = "";
  delivery_method = "";
  encoding = "";
  source_ip = m.source_ip;
  total_segments = 0;
  original_bytes_length = 0;
  original_size_bytes = m.original_size_bytes;
  transcoded_size_bytes = 0;
  media_count = length m.files;
  transcoding_performed = false;
}

-- The record of the sending client, if there is one, with the type that it was sent to.
unfoldable pub outbound_record :
    MsgRecord → Option Client → Bool → String → String → String → List MsgRecord
outbound_record base none internal to_type method carrier_name = []
outbound_record base (some c) internal to_type method carrier_name =
    record base {
      client_id = c.id;
      carrier = carrier_name;
      internal = internal;
      direction = "outbound";
      from_client_type = c.type;
      to_client_type = to_type;
      delivery_method = method;
    }
    ∷ []

-- The records of a message delivered to a client: the sender's, then the receiver's.
unfoldable pub delivery_records :
    MsgRecord → Client → Option Client → String → String → List MsgRecord
unfolding outbound_record
delivery_records base to_client from_client to_type method =
    outbound_record base from_client (is_client from_client) to_type method ""
    ++ (record base {
      client_id = to_client.id;
      carrier = carrier_name_of from_client base.msg_queue_item;
      internal = is_client from_client;
      direction = "inbound";
      from_client_type = from_client_type_of from_client;
      to_client_type = to_type;
      delivery_method = method;
    }
        ∷ [])
