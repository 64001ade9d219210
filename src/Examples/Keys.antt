-- ===== src/Examples/Keys.antt =====
-- Examples for api_keys.go, for `clientAuthMiddleware` of web_server.go, and for the routes of
-- batch_routes.go.
use gomsggw.Base.{
  ℕ, ◌≤◌, true, List, [], ◌∷◌, ◌++◌, none, some, String, Text, codes, text_eq, Eq_Text, Eq_String,
  Eq_ℕ, length, All, ◌≡◌, ◌≢◌, ◌↔◌, ◌⊎◌, refl,
}
use gomsggw.Base.Map.{lookup, insert, delete}
use gomsggw.Base.Strings.{has_prefix, trim_plus, contains}
use gomsggw.Client.{Client}
use gomsggw.Examples.{alice, bob, client_of, settings_with_burst, limit_env}
use gomsggw.Limits.{get_effective_limit, number_limit, client_limit, get_usage_count_by_type}
use gomsggw.Limits.Check.{check_message_limits, find_limit_number, number_settings}
use gomsggw.Router.Clients.{find_by_id}
use gomsggw.ApiKeys.{
  TenantApiKey, no_keys, lookup_api_key, is_expired, resolve_numbers, number_by_id, fill_keys,
  active_rows, load_api_keys,
}
use gomsggw.ApiKeys.Operations.{
  NewKey, api_key_prefix, new_key, create_api_key, revoke_api_key, touch_last_used,
}
use gomsggw.ApiKeys.Runs.{KeyOperation, load, create, touch, operate_all}
use gomsggw.ApiKeys.Accepted.{Stored, lookup_api_key_sound, lookup_api_key-revoked}
use gomsggw.ApiKeys.Auth.{
  AuthRequest, basic, AuthState, AuthEnv, Identity, next, client_auth_middleware, credentials,
  auth_with,
}
use gomsggw.ApiKeys.Access.{RestClient, ByKey, ByLogin, client_auth_middleware-next}
use gomsggw.Batch.Messages.{BatchMessage}
use gomsggw.Batch.Csv.{parsed, parse_csv_batch}
use gomsggw.Batch.CsvRows.{parse_csv_batch-parsed}
use gomsggw.Batch.Submit.{BatchRequest, SubmitEnv, json, accepted, new_job, submit_batch}
use gomsggw.Batch.Submitted.{MaySend, submit_batch_iff}
use gomsggw.Batch.Precheck.{
  CheckRequest, checked, check_batch, build_period_info, number_info, find_owned,
}
use gomsggw.Batch.Prechecked.{check_batch-check_message_limits}

-- A hash that tells texts apart by their lengths.
abbrev hash : Text → String
hash [] = String.[]
hash (a ∷ s) = String.◌∷◌ "x" (hash s)

abbrev web_client : Client
web_client = record (client_of 2 bob 0) { type = "web" }

abbrev request : NewKey
request = record {
  client_id = 2;
  name = codes "import";
  scopes = codes "send, batch";
  rate_limit = 5;
  expires_at = none;
  allowed_number_ids = 10 ∷ [];
  random_hex = some (codes "0123456789abcdef");
  now = 50;
  row_taken = true;
}

abbrev raw : Text
raw = api_key_prefix ++ codes "0123456789abcdef"

abbrev operations : List KeyOperation
operations = create (web_client ∷ []) request ∷ load true ∷ touch 1 60 ∷ []

abbrev the_key : TenantApiKey
the_key = record (new_key hash request raw (record { number_id = 10; number = codes bob } ∷ []) 1) {
  last_used_at = some 60;
}

found : lookup_api_key hash 70 raw (operate_all hash operations no_keys) ≡ some the_key
unfolding operate_all create_api_key find_by_id resolve_numbers number_by_id load_api_keys fill_keys
    active_rows touch_last_used lookup_api_key lookup insert delete is_expired
found = refl

lookup_api_key_sound_example :
    Stored hash 70 raw (operate_all hash operations no_keys).table the_key
lookup_api_key_sound_example = lookup_api_key_sound hash operations 70 raw found

-- A second key of the client; then the first is revoked.
abbrev raw_2 : Text
raw_2 = api_key_prefix ++ codes "0123456789"

abbrev both : List KeyOperation
both =
    create (web_client ∷ []) request
    ∷ create (web_client ∷ []) (record request { random_hex = some (codes "0123456789") })
    ∷ []

abbrev key_2 : TenantApiKey
key_2 = new_key hash request raw_2 (record { number_id = 10; number = codes bob } ∷ []) 2

revoked : (revoke_api_key true 1 2 (operate_all hash both no_keys)).1 ≡ none
unfolding operate_all create_api_key find_by_id resolve_numbers number_by_id revoke_api_key insert
    delete
revoked = refl

still_found :
    lookup_api_key hash 70 raw_2 (
      operate_all hash (load true ∷ []) (revoke_api_key true 1 2 (operate_all hash both no_keys)).0)
    ≡ some key_2
unfolding operate_all create_api_key find_by_id resolve_numbers number_by_id load_api_keys fill_keys
    active_rows revoke_api_key lookup_api_key lookup insert delete is_expired
still_found = refl

lookup_api_key-revoked_example : ◌≢◌ {A = ℕ} 2 1
lookup_api_key-revoked_example =
    lookup_api_key-revoked hash both 1 2 (load true ∷ []) 70 raw_2 revoked still_found

abbrev auth_env : AuthEnv
auth_env = record { hash = hash; decode = λ token. none; now = 70 }

abbrev auth_state : AuthState
auth_state = record { clients = (codes bob, web_client) ∷ []; store = no_keys; windows = [] }

abbrev basic_request : AuthRequest
basic_request = record { basic_auth = some (codes bob, []); authorization = [] }

abbrev who : Identity
who = record { client = web_client; auth_method = basic; api_key = none }

let_in : (client_auth_middleware auth_env basic_request auth_state).1 ≡ next who
unfolding client_auth_middleware credentials auth_with lookup text_eq
let_in = refl

client_auth_middleware-next_example :
    RestClient web_client
    × (ByKey auth_env basic_request auth_state who ⊎ ByLogin auth_env basic_request auth_state who)
client_auth_middleware-next_example =
    client_auth_middleware-next auth_env basic_request auth_state let_in

abbrev submit_env : SubmitEnv
submit_env = record {
  client = web_client;
  api_key = some the_key;
  lower = λ s. s;
  uuid = "job";
  stored = true;
}

abbrev batch_request : BatchRequest
batch_request = record {
  from = codes bob;
  messages = record { to = codes alice; text = codes "hello"; variables = [] } ∷ [];
  text_template = [];
  webhook_url = "";
  throttle_per_sec = 0;
  max_retry_mins = 0;
}

submit_batch_iff_example :
    (submit_batch submit_env (json (some batch_request))
      ≡ accepted (new_job submit_env batch_request (codes bob)) batch_request.messages [])
    ↔ ((from : Text) × MaySend submit_env batch_request from
        × (accepted (new_job submit_env batch_request from) batch_request.messages []
            ≡ accepted (new_job submit_env batch_request (codes bob)) batch_request.messages []))
submit_batch_iff_example =
    submit_batch_iff submit_env batch_request (new_job submit_env batch_request (codes bob))
      batch_request.messages []

abbrev csv_message : BatchMessage
csv_message = record { to = codes bob; text = []; variables = (codes "name", codes "Bo") ∷ [] }

csv_parsed :
    parse_csv_batch
      (λ s. s)
      (record {
        header = some (codes "to" ∷ codes "name" ∷ []);
        records = some (codes bob ∷ codes " Bo" ∷ []) ∷ some ([] ∷ []) ∷ [];
      })
    ≡ parsed (csv_message ∷ [])
unfolding parse_csv_batch text_eq
csv_parsed = refl

parse_csv_batch-parsed_example :
    (1 ≤ length (csv_message ∷ []))
    × (length (csv_message ∷ []) ≤ 2)
    × All (λ m. m.to ≢ []) (csv_message ∷ [])
    × All (λ r. r ≢ none) (some (codes bob ∷ codes " Bo" ∷ []) ∷ some ([] ∷ []) ∷ [])
parse_csv_batch-parsed_example =
    parse_csv_batch-parsed (λ s. s) (some (codes "to" ∷ codes "name" ∷ []))
      (some (codes bob ∷ codes " Bo" ∷ []) ∷ some ([] ∷ []) ∷ []) csv_parsed

-- Ten messages of a client without limits.
abbrev check_request : CheckRequest
check_request = record { from = codes bob; message_count = 10; msg_type = "" }

check_allowed :
    check_batch limit_env (record submit_env { api_key = none }) (some check_request)
    ≡ checked true
        (codes bob)
        (build_period_info limit_env web_client "sms")
        (number_info limit_env web_client "sms" (find_owned (codes bob) web_client.numbers))
unfolding check_batch build_period_info number_info get_effective_limit number_limit client_limit
    text_eq trim_plus get_usage_count_by_type
check_allowed = refl

no_number_settings : number_settings (find_limit_number (codes bob) web_client.numbers) ≡ none
unfolding find_limit_number contains has_prefix trim_plus text_eq
no_number_settings = refl

check_batch-check_message_limits_example :
    check_message_limits limit_env (some web_client) (codes bob) "sms" "outbound" ≡ none
check_batch-check_message_limits_example =
    check_batch-check_message_limits limit_env (record submit_env { api_key = none }) check_request
      check_allowed (settings_with_burst 0) refl refl no_number_settings
