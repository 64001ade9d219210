-- ===== src/Batch/Submit.antt =====
-- POST /messages/batch of batch_routes.go: a batch job is submitted. The headers and the body are
-- read by libraries; `throttle_per_second` and `max_retry_mins` below 0 do what 0 does.
use gomsggw.Base.{
  ℕ, Bool, true, false, not, ◌||◌, List, [], ◌∷◌, Option, none, some, String, Text, codes, Eq_Text,
  ◌==◌, leb, nat_eq, length, if◌then◌else◌,
}
use gomsggw.Base.Strings.{trim_plus}
use gomsggw.Client.{Client, ClientNumber}
use gomsggw.ApiKeys.{TenantApiKey, has_scope, is_number_allowed}
use gomsggw.Batch.{BatchJob, waiting}
use gomsggw.Batch.Messages.{BatchMessage}
use gomsggw.Batch.Csv.{CsvFile, CsvResult, parsed, parse_csv_batch}

pub record BatchRequest : Type 0 where
  pub from : Text
  pub messages : List BatchMessage
  pub text_template : Text
  pub webhook_url : String
  pub throttle_per_sec : ℕ
  pub max_retry_mins : ℕ

-- A form with its values and its file, where it has one, or a JSON body, where it can be read.
pub data Body : Type 0 where
  form : Text → Text → String → ℕ → Option CsvFile → Body
  json : Option BatchRequest → Body

pub data SubmitResult : Type 0 where
  no_scope csv_required bad_body no_messages too_many from_required not_owned key_not_allowed
        not_stored :
      SubmitResult
  bad_csv : CsvResult → SubmitResult
  accepted : BatchJob → List BatchMessage → Text → SubmitResult

-- What the handler has from the middleware, the UUID that it makes, and the database's answer.
pub record SubmitEnv : Type 0 where
  pub client : Client
  pub api_key : Option TenantApiKey
  pub lower : Text → Text
  pub uuid : String
  pub stored : Bool

pub data Read : Type 0 where
  read : BatchRequest → Read
  unread : SubmitResult → Read

abbrev pub csv_request : Text → Text → String → ℕ → CsvResult → Read
csv_request from template webhook throttle (parsed messages) = read (record {
  from = from;
  messages = messages;
  text_template = template;
  webhook_url = webhook;
  throttle_per_sec = throttle;
  max_retry_mins = 0;
})
csv_request from template webhook throttle failure = unread (bad_csv failure)

abbrev pub read_body : (Text → Text) → Body → Read
read_body to_lower (form from template webhook throttle none) = unread csv_required
read_body to_lower (form from template webhook throttle (some file)) =
    csv_request from template webhook throttle (parse_csv_batch to_lower file)
read_body to_lower (json none) = unread bad_body
read_body to_lower (json (some req)) = read req

-- The number to send from: the one asked for, or the client's only one.
abbrev pub only_number : List ClientNumber → Option Text
only_number (n ∷ []) = some n.number
only_number _ = none

unfoldable pub resolve_from : Text → Client → Option Text
resolve_from from client = if from == [] then only_number client.numbers else some from

unfoldable pub owns_number : Text → List ClientNumber → Bool
owns_number from [] = false
owns_number from (n ∷ ns) =
    (n.number == from || trim_plus n.number == trim_plus from) || owns_number from ns

abbrev pub key_has_scope : Text → Option TenantApiKey → Bool
key_has_scope scope none = true
key_has_scope scope (some key) = has_scope scope key

abbrev pub key_allows : Text → Option TenantApiKey → Bool
key_allows number none = true
key_allows number (some key) = is_number_allowed number key

abbrev pub id_of_key : Option TenantApiKey → Option ℕ
id_of_key none = none
id_of_key (some key) = some key.id

abbrev pub default_throttle : ℕ → ℕ
default_throttle n = if leb n 0 then 30 else n

abbrev pub new_job : SubmitEnv → BatchRequest → Text → BatchJob
new_job env req from = record {
  id = env.uuid;
  client_id = env.client.id;
  api_key_id = id_of_key env.api_key;
  status = waiting;
  total_count = length req.messages;
  sent_count = 0;
  failed_count = 0;
  queued_count = 0;
  from_number = from;
  webhook_url = req.webhook_url;
  throttle_rps = default_throttle req.throttle_per_sec;
  max_retry_mins = req.max_retry_mins;
  completed_at = none;
  errors = [];
}

unfoldable pub submit_from : SubmitEnv → BatchRequest → Option Text → SubmitResult
unfolding owns_number
submit_from env req none = from_required
submit_from env req (some from) =
    if not (owns_number from env.client.numbers)
    then not_owned
    else if not (key_allows from env.api_key)
    then key_not_allowed
    else if not env.stored
    then not_stored
    else accepted (new_job env req from) req.messages req.text_template

unfoldable pub submit_read : SubmitEnv → Read → SubmitResult
unfolding submit_from resolve_from
submit_read env (unread failure) = failure
submit_read env (read req) =
    if nat_eq (length req.messages) 0
    then no_messages
    else if not (leb (length req.messages) 10000)
    then too_many
    else submit_from env req (resolve_from req.from env.client)

unfoldable pub submit_batch : SubmitEnv → Body → SubmitResult
submit_batch env body =
    if not (key_has_scope (codes "batch") env.api_key)
    then no_scope
    else submit_read env (read_body env.lower body)
