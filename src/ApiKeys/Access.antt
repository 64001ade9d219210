-- ===== src/ApiKeys/Access.antt =====
-- Which requests `clientAuthMiddleware` of web_server.go lets pass.
use gomsggw.Base.{
  ℕ, true, false, not, ◌&&◌, [], length, Option, none, some, String, Text, leb, codes, Eq_String,
  Eq_Text, ◌==◌, ==_iff, ◌≡◌, ◌≢◌, ◌⊎◌, inl, inr, refl, sym, ap, ◌∙◌, Bool-cases, Option-cases,
  arith,
}
use gomsggw.Base.Map.{lookup}
use gomsggw.Base.Strings.{has_prefix}
use gomsggw.Client.{Client}
use gomsggw.RateLimit.{check_rate_limit}
use gomsggw.Router.Clients.{find_by_id}
use gomsggw.ApiKeys.{TenantApiKey, lookup_api_key}
use gomsggw.ApiKeys.Operations.{api_key_prefix}
use gomsggw.ApiKeys.Auth.{
  bearer_prefix, decoded_credentials, AuthRequest, AuthMethod, api_key, AuthState, AuthEnv,
  Identity, next, Credentials, login, raw_key, nothing, credentials, expected_method, method_name,
  may_use_rest, is_api_key, client_values, finish_auth, auth_login, auth_key, auth_raw_key,
  auth_with, client_auth_middleware,
}
use gomsggw.Base.Strings.{drop}

-- A request with an API key: the key is accepted, it is the key's client, and the rate limit of the
-- key, if it has one, is not used up.
pub record ByKey (env : AuthEnv) (req : AuthRequest) (st : AuthState) (who : Identity)
    : Type 0 where
  pub raw : Text
  pub key : TenantApiKey
  pub shown : credentials env.decode req ≡ raw_key raw
  pub accepted : lookup_api_key env.hash env.now raw st.store ≡ some key
  pub its_client : find_by_id key.client_id (client_values st.clients) ≡ some who.client
  pub in_rate :
      (leb 1 key.rate_limit && not (check_rate_limit env.now key.id key.rate_limit st.windows).1)
      ≡ false
  pub with_key : who.api_key ≡ some key

-- A request with a name and a password, shown in the way that the client's settings ask for.
pub record ByLogin (env : AuthEnv) (req : AuthRequest) (st : AuthState) (who : Identity)
    : Type 0 where
  pub method : AuthMethod
  pub username : Text
  pub password : Text
  pub shown : credentials env.decode req ≡ login method username password
  pub its_client : lookup username st.clients ≡ some who.client
  pub named : username ≢ []
  pub right_password : codes who.client.password ≡ password
  pub right_method : (expected_method who.client.settings ≡ method_name method)
  pub no_key : who.api_key ≡ none

-- The client has the type of a web client or no type at all.
abbrev pub RestClient : Client → Type 0
RestClient c = (c.type ≡ "web") ⊎ (c.type ≡ "")

may_use_rest-RestClient : (c : Client) → may_use_rest c ≡ true → RestClient c
may_use_rest-RestClient c h = elim (Bool-cases (c.type == "web")) [
  | inl web ↦ inl ((==_iff c.type "web").0 web)
  | inr other ↦ inr ((==_iff c.type "").0 (ground (arith, h, other)))
]

-- What the last part of the middleware lets pass.
record Finished (method : AuthMethod) (key : Option TenantApiKey) (client : Client) (who : Identity)
    : Type 0 where
  same_client : who.client ≡ client
  same_key : who.api_key ≡ key
  web : may_use_rest client ≡ true
  expected :
      (not (is_api_key method) && not (expected_method client.settings == method_name method))
      ≡ false

finish_auth-next :
    (method : AuthMethod) (key : Option TenantApiKey) (client : Client) {who : Identity}
    → finish_auth method key client ≡ next who
    → Finished method key client who
unfolding finish_auth
finish_auth-next method key client {who} h = record {
  same_client = ground (arith, h);
  same_key = ground (arith, h);
  web = ground (arith, h);
  expected = ground (arith, h);
}

auth_key-next :
    (now : ℕ) (key : TenantApiKey) (client : Client) (st : AuthState) {who : Identity}
    → (auth_key now key (some client) st).1 ≡ next who
    → ((leb 1 key.rate_limit && not (check_rate_limit now key.id key.rate_limit st.windows).1)
        ≡ false)
      × (finish_auth api_key (some key) client ≡ next who)
unfolding auth_key
auth_key-next now key client st {who} h =
    elim (Bool-cases
      (leb 1 key.rate_limit && not (check_rate_limit now key.id key.rate_limit st.windows).1)) [
        | inl over ↦ absurd (ground (arith, h, over))
        | inr under ↦ (under, ground (arith, h, under))
      ]

auth_login-next :
    (method : AuthMethod) (username password : Text) (client : Client) {who : Identity}
    → auth_login method username password (some client) ≡ next who
    → ((username == []) ≡ false)
      × ((codes client.password == password) ≡ true)
      × (finish_auth method none client ≡ next who)
unfolding auth_login
auth_login-next method username password client {who} h = elim (Bool-cases (username == [])) [
  | inl empty ↦ absurd (ground (arith, h, empty))
  | inr named ↦ elim (Bool-cases (codes client.password == password)) [
    | inr wrong ↦ absurd (ground (arith, h, named, wrong))
    | inl right ↦ (named, right, ground (arith, h, named, right))
  ]
]

bearer_or_nothing :
    (decode : Text → Option Text) (req : AuthRequest) (method : AuthMethod)
    (username password : Text)
    → credentials decode req ≡ login method username password
    → is_api_key method ≡ false
unfolding credentials
bearer_or_nothing decode req method username password h = elim (Option-cases req.basic_auth) [
  | inr (pair, shown) ↦ ground (arith, h, shown)
  | inl not_shown ↦ elim (Bool-cases (has_prefix bearer_prefix req.authorization)) [
    | inr other ↦ absurd (ground (arith, h, not_shown, other))
    | inl is ↦
        elim (Bool-cases
          (has_prefix api_key_prefix (drop (length bearer_prefix) req.authorization))) [
            | inl raw ↦ absurd (ground (arith, h, not_shown, is, raw))
            | inr not_raw ↦
                elim (Option-cases
                  (decoded_credentials (decode (drop (length bearer_prefix) req.authorization)))) [
                    | inl unreadable ↦
                        absurd (ground (arith, h, not_shown, is, not_raw, unreadable))
                    | inr (pair, readable) ↦ ground (arith, h, not_shown, is, not_raw, readable)
                  ]
          ]
  ]
]

method_as_expected :
    (method : AuthMethod) (expected : String)
    → is_api_key method ≡ false
    → (not (is_api_key method) && not (expected == method_name method)) ≡ false
    → expected ≡ method_name method
method_as_expected method expected h k =
    (==_iff expected (method_name method)).0 (ground (arith, h, k))

login_or_key :
    (env : AuthEnv) (req : AuthRequest) (st : AuthState) (c : Credentials) {who : Identity}
    → credentials env.decode req ≡ c
    → (auth_with env c st).1 ≡ next who
    → RestClient who.client × (ByKey env req st who ⊎ ByLogin env req st who)
unfolding auth_with auth_raw_key
login_or_key env req st nothing {who} shown h = cc
login_or_key env req st (raw_key raw) {who} shown h =
    elim (Option-cases (lookup_api_key env.hash env.now raw st.store)) [
      | inl unknown ↦ absurd (ground (arith, h, unknown))
      | inr (key, accepted) ↦
          elim (Option-cases (find_by_id key.client_id (client_values st.clients))) [
            | inl no_client ↦ absurd (ground (arith, h, accepted, no_client))
            | inr (client, found) ↦
                let (under, done) =
                  auth_key-next env.now key client st (rw (accepted, found) at h) in
                let law = finish_auth-next api_key (some key) client done in
                (
                  rw law.same_client (may_use_rest-RestClient client law.web),
                  inl (record {
                    raw = raw;
                    key = key;
                    shown = shown;
                    accepted = accepted;
                    its_client = found ∙ ap some (sym law.same_client);
                    in_rate = under;
                    with_key = law.same_key;
                  }),
                )
          ]
    ]
login_or_key env req st (login method username password) {who} shown h =
    elim (Option-cases (lookup username st.clients)) [
      | inl no_client ↦ absurd (ground (arith, h, no_client))
      | inr (client, found) ↦
          let (named, right, done) =
            auth_login-next method username password client (rw found at h) in
          let law = finish_auth-next method none client done in
          (
            rw law.same_client (may_use_rest-RestClient client law.web),
            inr (record {
              method = method;
              username = username;
              password = password;
              shown = shown;
              its_client = found ∙ ap some (sym law.same_client);
              named = λ e. ground (arith, ==_iff username [], named, e);
              right_password =
                  ap (λ (c : Client). codes c.password) law.same_client ∙ (==_iff _ _).0 right;
              right_method =
                  ap (λ (c : Client). expected_method c.settings) law.same_client
                  ∙ method_as_expected method (expected_method client.settings)
                      (bearer_or_nothing env.decode req method username password shown)
                      law.expected;
              no_key = law.same_key;
            }),
          )
    ]

-- When `clientAuthMiddleware` lets a request pass, the client's type is "web" or empty, and either the
-- request shows a raw API key that is accepted, the client is the key's and the key's rate limit
-- leaves room, or it shows the client's name and password in the way that its settings ask for.
pub client_auth_middleware-next :
    (env : AuthEnv) (req : AuthRequest) (st : AuthState) {who : Identity}
    → (client_auth_middleware env req st).1 ≡ next who
    → RestClient who.client × (ByKey env req st who ⊎ ByLogin env req st who)
unfolding client_auth_middleware
client_auth_middleware-next env req st h =
    login_or_key env req st (credentials env.decode req) refl h
