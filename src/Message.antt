-- ===== src/Message.antt =====
-- msg_queue.go: the message that travels between the parts, and its bounded retry. Times are
-- nanoseconds. The ten seconds that `Retry` sleeps have no effect on the value it queues.
pub mod Retries
use gomsggw.Base.{
  ℕ, ◌+◌, Bool, true, false, List, Option, none, some, String, Text, nat_eq, leb, ◌==◌, Eq_String,
  not, if◌then◌else◌,
}

-- `MsgFile` of mms_transcode.go
pub record MsgFile : Type 0 where
  pub filename : String
  pub content_type : String
  pub content : Text
  pub base64_data : Text
  pub media_url : String

pub record MsgQueueDelivery : Type 0 where
  pub error : String
  pub retry_time : ℕ
  pub retry_count : ℕ

pub record MsgQueueItem : Type 0 where
  pub to : Text
  pub from : Text
  pub received_timestamp : ℕ
  pub queued_timestamp : ℕ
  pub type : String
  pub files : List MsgFile
  pub message : Text
  pub skip_number_check : Bool
  pub log_id : String
  pub source_carrier : String
  pub source_ip : String
  pub original_size_bytes : ℕ
  pub delivery : Option MsgQueueDelivery

abbrev pub sms_type : String
sms_type = "sms"

abbrev pub mms_type : String
mms_type = "mms"

-- What `Retry` leaves: the message, its answer (`true` when discarded), and what it queued.
pub record RetryResult : Type 0 where
  pub item : MsgQueueItem
  pub discarded : Bool
  pub queued : Option MsgQueueItem

-- a count that is never retried
abbrev pub black_hole : ℕ
black_hole = 666

abbrev pub max_retries : ℕ
max_retries = 3

-- the delivery that a first retry starts from
unfoldable pub current_delivery : ℕ → Option MsgQueueDelivery → MsgQueueDelivery
current_delivery now none = record { error = ""; retry_time = now; retry_count = 0 }
current_delivery now (some d) = d

retry_with : MsgQueueDelivery → String → MsgQueueItem → RetryResult
retry_with d err msg =
    let held = record msg { delivery = some d } in
    let counted = record d {
      retry_count = d.retry_count + 1;
      error = if not (err == "") then err else d.error;
    } in
    let next = record msg { delivery = some counted } in
    if nat_eq d.retry_count black_hole
    then record { item = held; discarded = false; queued = none }
    else if leb max_retries d.retry_count
    then record { item = held; discarded = true; queued = none }
    else record { item = next; discarded = false; queued = some next }

unfoldable pub retry : ℕ → String → MsgQueueItem → RetryResult
unfolding retry_with current_delivery
retry now err msg = retry_with (current_delivery now msg.delivery) err msg
