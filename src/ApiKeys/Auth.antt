-- ===== src/ApiKeys/Auth.antt =====
-- `clientAuthMiddleware` of web_server.go: who a request of the REST API comes from. The headers
-- are read, and base64 is decoded, by libraries; a request carries what they give.
use gomsggw.Base.{
  ℕ, Bool, true, false, not, ◌&&◌, ◌||◌, List, [], ◌∷◌, Option, none, some, String, Text, leb,
  nat_eq, codes, Eq_String, Eq_Text, ◌==◌, length, if◌then◌else◌,
}
use gomsggw.Base.Map.{lookup}
use gomsggw.Base.Strings.{has_prefix, drop}
use gomsggw.Client.{Client, ClientSettings}
use gomsggw.RateLimit.{Windows, check_rate_limit}
use gomsggw.Router.Clients.{find_by_id}
use gomsggw.ApiKeys.{TenantApiKey, KeyStore, lookup_api_key}
use gomsggw.ApiKeys.Operations.{api_key_prefix, touch_last_used}

pub record AuthRequest : Type 0 where
  pub basic_auth : Option (Text × Text)
  pub authorization : Text

pub data AuthMethod : Type 0 where
  basic bearer api_key : AuthMethod

-- `gateway.Clients` in the order of a loop over it, the keys, the windows of the limiter.
pub record AuthState : Type 0 where
  pub clients : List (Text × Client)
  pub store : KeyStore
  pub windows : Windows

-- What the environment gives: the hash, the base64 decoder, the clock.
pub record AuthEnv : Type 0 where
  pub hash : Text → String
  pub decode : Text → Option Text
  pub now : ℕ

-- The values that the middleware sets for the handler.
pub record Identity : Type 0 where
  pub client : Client
  pub auth_method : AuthMethod
  pub api_key : Option TenantApiKey

pub data AuthResult : Type 0 where
  unauthorized : AuthResult
  rate_limited : AuthResult
  legacy_client : AuthResult
  wrong_method : AuthResult
  next : Identity → AuthResult

abbrev pub bearer_prefix : Text
bearer_prefix = codes "Bearer "

abbrev pub name_from : ℕ → Option (Text × Text) → Option (Text × Text)
name_from c none = none
name_from c (some (name, rest)) = some (c ∷ name, rest)

-- The two parts of `strings.SplitN(s, ":", 2)`, if there are two.
unfoldable pub split_credentials : Text → Option (Text × Text)
split_credentials [] = none
split_credentials (c ∷ s) =
    let rest = name_from c (split_credentials s) in if nat_eq c b':' then some ([], s) else rest

abbrev pub decoded_credentials : Option Text → Option (Text × Text)
decoded_credentials none = none
decoded_credentials (some s) = split_credentials s

-- What a request shows: a name with a password, a raw key, or neither.
pub data Credentials : Type 0 where
  login : AuthMethod → Text → Text → Credentials
  raw_key : Text → Credentials
  nothing : Credentials

abbrev pub bearer_login : Option (Text × Text) → Credentials
bearer_login none = nothing
bearer_login (some (username, password)) = login bearer username password

abbrev pub basic_or : Option (Text × Text) → Credentials → Credentials
basic_or (some (username, password)) otherwise = login basic username password
basic_or none otherwise = otherwise

unfoldable pub credentials : (Text → Option Text) → AuthRequest → Credentials
unfolding split_credentials has_prefix
credentials decode req =
    let token = drop (length bearer_prefix) req.authorization in
    basic_or req.basic_auth (
      if not (has_prefix bearer_prefix req.authorization)
      then nothing
      else if has_prefix api_key_prefix token
      then raw_key token
      else bearer_login (decoded_credentials (decode token)))

abbrev pub expected_method : Option ClientSettings → String
expected_method none = "basic"
expected_method (some s) = if s.auth_method == "" then "basic" else s.auth_method

abbrev pub method_name : AuthMethod → String
method_name basic = "basic"
method_name bearer = "bearer"
method_name api_key = "api_key"

abbrev pub may_use_rest : Client → Bool
may_use_rest client = client.type == "" || client.type == "web"

abbrev pub client_values : List (Text × Client) → List Client
client_values [] = []
client_values ((name, client) ∷ clients) = client ∷ client_values clients

abbrev pub is_api_key : AuthMethod → Bool
is_api_key api_key = true
is_api_key _ = false

-- The part behind the look at the credentials.
unfoldable pub finish_auth : AuthMethod → Option TenantApiKey → Client → AuthResult
finish_auth method key client =
    if not (may_use_rest client)
    then legacy_client
    else if not (is_api_key method) && not (expected_method client.settings == method_name method)
    then wrong_method
    else next (record { client = client; auth_method = method; api_key = key })

unfoldable pub auth_login : AuthMethod → Text → Text → Option Client → AuthResult
unfolding finish_auth
auth_login method username password none = unauthorized
auth_login method username password (some client) =
    if username == []
    then unauthorized
    else if not (codes client.password == password)
    then unauthorized
    else finish_auth method none client

unfoldable pub auth_key : ℕ → TenantApiKey → Option Client → AuthState → AuthState × AuthResult
unfolding finish_auth
auth_key now key none st = (st, unauthorized)
auth_key now key (some client) st =
    let (windows, allowed) = check_rate_limit now key.id key.rate_limit st.windows in
    let counted = record st { windows = if leb 1 key.rate_limit then windows else st.windows } in
    if leb 1 key.rate_limit && not allowed then (counted, rate_limited) else (
      record counted { store = touch_last_used key.id now st.store },
      finish_auth api_key (some key) client,
    )

unfoldable pub auth_raw_key : ℕ → Option TenantApiKey → AuthState → AuthState × AuthResult
unfolding auth_key
auth_raw_key now none st = (st, unauthorized)
auth_raw_key now (some key) st =
    auth_key now key (find_by_id key.client_id (client_values st.clients)) st

unfoldable pub auth_with : AuthEnv → Credentials → AuthState → AuthState × AuthResult
unfolding auth_login auth_raw_key
auth_with env nothing st = (st, unauthorized)
auth_with env (raw_key raw) st =
    auth_raw_key env.now (lookup_api_key env.hash env.now raw st.store) st
auth_with env (login method username password) st =
    (st, auth_login method username password (lookup username st.clients))

unfoldable pub client_auth_middleware : AuthEnv → AuthRequest → AuthState → AuthState × AuthResult
client_auth_middleware env req st = auth_with env (credentials env.decode req) st
