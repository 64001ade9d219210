-- ===== src/WebSend.antt =====
-- POST /messages/send and POST /messages of web_server.go: a web client sends a message. The request
-- comes with the client and the key that clientAuthMiddleware found; the body is read by a library,
-- so it is given as what each of the three formats reads of it.
pub mod Media
pub mod Route
pub mod Owned
pub mod Texts
use gomsggw.Base.{ℕ, List, Option, String, Text}
use gomsggw.Client.{Client}
use gomsggw.ApiKeys.{TenantApiKey}
use gomsggw.Limits.Check.{LimitCheckResult}
use gomsggw.Message.{MsgFile, MsgQueueItem}

pub record WebMediaItem : Type 0 where
  pub filename : String
  pub content : Text
  pub content_type : String
  pub url : String

pub record WebMessageRequest : Type 0 where
  pub client_id : ℕ
  pub from : Text
  pub to : Text
  pub text : Text
  pub media : List WebMediaItem

pub record BicomMessageRequest : Type 0 where
  pub from : Text
  pub to : Text
  pub text : Text
  pub media_urls : List String

pub record TelnyxMessageRequest : Type 0 where
  pub from : Text
  pub to : List Text
  pub text : Text
  -- URL and content type
  pub media : List (String × String)

pub record ParsedMessage : Type 0 where
  pub from : Text
  pub to : Text
  pub text : Text
  pub media : List WebMediaItem

-- What `ReadJSON` makes of the body as each of the requests.
pub record SendBody : Type 0 where
  pub bicom : Option BicomMessageRequest
  pub telnyx : Option TelnyxMessageRequest
  pub generic : Option WebMessageRequest

pub data SendError : Type 0 where
  no_scope bad_body wrong_client to_required from_required not_owned key_not_allowed : SendError
  limited : LimitCheckResult → SendError
  fetch_failed : String → SendError
  bad_base64 : SendError

-- `MM4Message` of mms_server.go, as this handler makes it: the route is never set, and the client
-- stands for itself by its name.
pub record MediaMessage : Type 0 where
  pub from : Text
  pub to : Text
  pub content : Text
  pub headers : List (Text × Text)
  pub client : String
  pub message_id : String
  pub files : List MsgFile
  pub transaction_id : String

-- What the handler puts on a channel.
pub data Push : Type 0 where
  to_router : MsgQueueItem → Push
  to_transcoder : MediaMessage → Push

-- The status of an answer, with what was pushed before it.
pub data SendResult : Type 0 where
  refused : ℕ → SendError → SendResult
  queued : ℕ → Push → SendResult

pub record WebSendEnv : Type 0 where
  pub client : Client
  pub api_key : Option TenantApiKey
  -- fetchMediaFromURL: the content, its type and the name
  pub fetch : String → Option (Text × String × String)
  pub decode_base64 : Text → Option Text
  pub encode_base64 : Text → Text
  pub uuid : String
  pub client_ip : String
  pub now : ℕ
