-- ===== src/Client.antt =====
-- The configuration records of clients.go and the message records of msg_records.go and gateway.go.
-- A limit that is negative is read by the code as one that is 0, so limits are natural numbers.
use gomsggw.Base.{ℕ, Bool, List, Option, String, Text}
use gomsggw.Message.{MsgQueueItem}

pub record ClientSettings : Type 0 where
  pub auth_method : String
  pub api_format : String
  pub disable_message_splitting : Bool
  pub webhook_retries : ℕ
  pub webhook_timeout_secs : ℕ
  pub include_raw_segments : Bool
  pub default_webhook : String
  pub sms_burst_limit : ℕ
  pub sms_daily_limit : ℕ
  pub sms_monthly_limit : ℕ
  pub mms_burst_limit : ℕ
  pub mms_daily_limit : ℕ
  pub mms_monthly_limit : ℕ
  pub limit_both : Bool

pub record NumberSettings : Type 0 where
  pub sms_burst_limit : ℕ
  pub sms_daily_limit : ℕ
  pub sms_monthly_limit : ℕ
  pub mms_burst_limit : ℕ
  pub mms_daily_limit : ℕ
  pub mms_monthly_limit : ℕ
  pub limit_both : Bool
  pub auto_reply_enabled : Bool
  pub auto_reply_message : Text
  pub auto_reply_cooldown_sec : ℕ

pub record ClientNumber : Type 0 where
  pub id : ℕ
  pub client_id : ℕ
  pub number : Text
  pub carrier : String
  pub tag : String
  pub group : String
  pub ignore_stop_cmd_sending : Bool
  pub web_hook : String
  pub settings : Option NumberSettings

pub record ClientFailover : Type 0 where
  pub id : ℕ
  pub primary_client_id : ℕ
  pub fallback_client_id : ℕ
  pub priority : ℕ
  pub enabled : Bool

pub record Client : Type 0 where
  pub id : ℕ
  pub username : String
  pub password : String
  pub address : String
  pub name : String
  pub type : String
  pub timezone : String
  pub log_privacy : Bool
  pub settings : Option ClientSettings
  pub numbers : List ClientNumber
  pub failovers : List ClientFailover

-- `MsgRecord` of gateway.go
pub record MsgRecord : Type 0 where
  pub msg_queue_item : MsgQueueItem
  pub client_id : ℕ
  pub carrier : String
  pub internal : Bool
  pub direction : String
  pub from_client_type : String
  pub to_client_type : String
  pub delivery_method : String
  pub encoding : String
  pub source_ip : String
  pub total_segments : ℕ
  pub original_bytes_length : ℕ
  pub original_size_bytes : ℕ
  pub transcoded_size_bytes : ℕ
  pub media_count : ℕ
  pub transcoding_performed : Bool

-- The columns of `MsgRecordDBItem` that the usage queries read.
pub record MsgRecordRow : Type 0 where
  pub client_id : ℕ
  pub to : Text
  pub from : Text
  pub received_timestamp : ℕ
  pub type : String
  pub direction : String
