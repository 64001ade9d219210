-- ===== src/ApiKeys.antt =====
-- api_keys.go: the keys of tenants, in the database and in the map that the gateway keeps of them.
-- The hash of a raw key is a parameter. Times are nanoseconds.
pub mod Operations
pub mod Store
pub mod Revoking
pub mod Runs
pub mod Inactive
pub mod Accepted
pub mod Auth
pub mod Access
use gomsggw.Base.{
  ℕ, zero, suc, ◌+◌, Bool, true, false, not, ◌&&◌, ◌||◌, List, [], ◌∷◌, ◌++◌, map, Option, none,
  some, String, Text, leb, ltb, nat_eq, ◌⊎◌, inl, inr, codes, count, Eq_String, Eq_Text, ◌==◌,
  length, if◌then◌else◌,
}
use gomsggw.Base.Map.{lookup, insert, delete}
use gomsggw.Base.Strings.{trim_plus}
use gomsggw.Client.{Client, ClientNumber}
use gomsggw.Router.Clients.{find_by_id}

pub record ApiKeyNumber : Type 0 where
  pub number_id : ℕ
  pub number : Text

pub record TenantApiKey : Type 0 where
  pub id : ℕ
  pub client_id : ℕ
  pub name : Text
  pub key_hash : String
  pub key_prefix : Text
  pub scopes : Text
  pub rate_limit : ℕ
  pub active : Bool
  pub expires_at : Option ℕ
  pub last_used_at : Option ℕ
  pub created_at : ℕ
  pub allowed_numbers : List ApiKeyNumber

-- `unicode.IsSpace`
abbrev pub is_space : ℕ → Bool
is_space c =
    (leb 9 c && leb c 13)
    || nat_eq c 32
    || nat_eq c 133
    || nat_eq c 160
    || nat_eq c 5760
    || (leb 8192 c && leb c 8202)
    || nat_eq c 8232
    || nat_eq c 8233
    || nat_eq c 8239
    || nat_eq c 8287
    || nat_eq c 12288

unfoldable pub trim_left : Text → Text
trim_left [] = []
trim_left (a ∷ s) = let rest = trim_left s in if is_space a then rest else a ∷ s

unfoldable pub trim_right : Text → Text
trim_right [] = []
trim_right (a ∷ s) = let rest = trim_right s in if is_space a && rest == [] then [] else a ∷ rest

-- `strings.TrimSpace`
unfoldable pub trim_space : Text → Text
unfolding trim_left trim_right
trim_space s = trim_right (trim_left s)

abbrev pub onto_first : ℕ → List Text → List Text
onto_first a [] = (a ∷ []) ∷ []
onto_first a (part ∷ parts) = (a ∷ part) ∷ parts

-- `strings.Split(s, ",")`
unfoldable pub split_commas : Text → List Text
split_commas [] = [] ∷ []
split_commas (a ∷ s) =
    let parts = split_commas s in if nat_eq a b',' then [] ∷ parts else onto_first a parts

abbrev pub any_scope : Text → List Text → Bool
any_scope scope [] = false
any_scope scope (s ∷ ss) = trim_space s == scope || any_scope scope ss

unfoldable pub has_scope : Text → TenantApiKey → Bool
unfolding split_commas trim_space
has_scope scope key = any_scope scope (split_commas key.scopes)

abbrev pub is_after : ℕ → Option ℕ → Bool
is_after now none = false
is_after now (some t) = ltb t now

unfoldable pub is_expired : ℕ → TenantApiKey → Bool
is_expired now key = is_after now key.expires_at

abbrev pub any_number : Text → List ApiKeyNumber → Bool
any_number number [] = false
any_number number (an ∷ ans) =
    (an.number == trim_plus number || an.number == number) || any_number number ans

unfoldable pub is_number_allowed : Text → TenantApiKey → Bool
is_number_allowed number key =
    if nat_eq (length key.allowed_numbers) 0 then true else any_number number key.allowed_numbers

-- The rows of the table, `gateway.APIKeys`, and the id of the next row.
pub record KeyStore : Type 0 where
  pub table : List TenantApiKey
  pub api_keys : List (String × TenantApiKey)
  pub next_id : ℕ

abbrev pub no_keys : KeyStore
no_keys = record { table = []; api_keys = []; next_id = 1 }

pub data KeyError : Type 0 where
  client_not_found random_failed not_created not_found query_failed : KeyError
  number_not_found : ℕ → KeyError

-- The loop that fills the map with the rows of the query.
unfoldable pub fill_keys :
    List TenantApiKey → List (String × TenantApiKey) → List (String × TenantApiKey)
fill_keys [] keys = keys
fill_keys (key ∷ rows) keys = fill_keys rows (insert key.key_hash key keys)

-- `WHERE active = true`
unfoldable pub active_rows : List TenantApiKey → List TenantApiKey
active_rows [] = []
active_rows (key ∷ rows) =
    let others = active_rows rows in if key.active then key ∷ others else others

-- A query that fails leaves the map as it is.
unfoldable pub load_api_keys : Bool → KeyStore → KeyStore
unfolding fill_keys active_rows
load_api_keys done store =
    if done then record store { api_keys = fill_keys (active_rows store.table) [] } else store

abbrev pub usable : ℕ → Option TenantApiKey → Option TenantApiKey
usable now none = none
usable now (some key) = if not key.active || is_expired now key then none else some key

unfoldable pub lookup_api_key : (Text → String) → ℕ → Text → KeyStore → Option TenantApiKey
lookup_api_key hash now raw store = usable now (lookup (hash raw) store.api_keys)

unfoldable pub number_by_id : ℕ → List ClientNumber → Option ClientNumber
number_by_id id [] = none
number_by_id id (n ∷ ns) = let rest = number_by_id id ns in if nat_eq n.id id then some n else rest

pub data Resolved : Type 0 where
  resolved : List ApiKeyNumber → Resolved
  unknown : ℕ → Resolved

abbrev pub and_number : ℕ → Option ClientNumber → Resolved → Resolved
and_number id none rest = unknown id
and_number id (some n) (resolved ns) = resolved (record { number_id = id; number = n.number } ∷ ns)
and_number id (some n) (unknown other) = unknown other

-- The loop over `allowedNumberIDs`
unfoldable pub resolve_numbers : List ClientNumber → List ℕ → Resolved
unfolding number_by_id
resolve_numbers numbers [] = resolved []
resolve_numbers numbers (id ∷ ids) =
    and_number id (number_by_id id numbers) (resolve_numbers numbers ids)
