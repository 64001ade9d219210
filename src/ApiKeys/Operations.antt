-- ===== src/ApiKeys/Operations.antt =====
-- The operations of api_keys.go that change the keys. The random bytes and the database's answers
-- are parameters; the database numbers new rows. An operation is one step: what it does to the table
-- and what it then does to the map are not told apart.
use gomsggw.Base.{
  ℕ, zero, suc, ◌+◌, Bool, true, false, not, ◌&&◌, List, [], ◌∷◌, ◌++◌, map, Option, none, some,
  String, Text, nat_eq, ◌⊎◌, inl, inr, codes, count, Eq_String, Eq_Text, length, if◌then◌else◌,
}
use gomsggw.Base.Map.{insert, delete}
use gomsggw.Client.{Client}
use gomsggw.Router.Clients.{find_by_id}
use gomsggw.ApiKeys.{
  ApiKeyNumber, TenantApiKey, KeyStore, KeyError, client_not_found, random_failed, not_created,
  not_found, query_failed, number_not_found, Resolved, resolved, unknown, resolve_numbers,
}

-- `rawKey[:n]`
abbrev pub take_text : ℕ → Text → Text
take_text zero s = []
take_text (suc n) [] = []
take_text (suc n) (a ∷ s) = a ∷ take_text n s

abbrev pub api_key_prefix : Text
api_key_prefix = codes "gw_live_"

-- What a caller of `createAPIKey` gives, and what its environment answers: the random part, and
-- whether the database takes the row.
pub record NewKey : Type 0 where
  pub client_id : ℕ
  pub name : Text
  pub scopes : Text
  pub rate_limit : ℕ
  pub expires_at : Option ℕ
  pub allowed_number_ids : List ℕ
  pub random_hex : Option Text
  pub now : ℕ
  pub row_taken : Bool

abbrev pub new_key : (Text → String) → NewKey → Text → List ApiKeyNumber → ℕ → TenantApiKey
new_key hash req raw numbers id = record {
  id = id;
  client_id = req.client_id;
  name = req.name;
  key_hash = hash raw;
  key_prefix = take_text (length api_key_prefix + 8) raw;
  scopes = req.scopes;
  rate_limit = req.rate_limit;
  active = true;
  expires_at = req.expires_at;
  last_used_at = none;
  created_at = req.now;
  allowed_numbers = numbers;
}

-- The store after a call, and the raw key with its record, or the error.
abbrev pub Created : Type 0
Created = KeyStore × (KeyError ⊎ (Text × TenantApiKey))

unfoldable pub store_key : TenantApiKey → Text → Bool → KeyStore → Created
store_key key raw false store = (store, inl not_created)
store_key key raw true store = (
  record store {
    table = store.table ++ (key ∷ []);
    api_keys = insert key.key_hash key store.api_keys;
    next_id = store.next_id + 1;
  },
  inr (raw, key),
)

unfoldable pub create_resolved : (Text → String) → NewKey → Text → Resolved → KeyStore → Created
create_resolved hash req raw (unknown id) store = (store, inl (number_not_found id))
create_resolved hash req raw (resolved numbers) store =
    store_key (new_key hash req raw numbers store.next_id) raw req.row_taken store

unfoldable pub create_generated :
    (Text → String) → NewKey → Client → Option Text → KeyStore → Created
create_generated hash req client none store = (store, inl random_failed)
create_generated hash req client (some random) store =
    create_resolved hash req (api_key_prefix ++ random)
      (resolve_numbers client.numbers req.allowed_number_ids) store

unfoldable pub create_for : (Text → String) → NewKey → Option Client → KeyStore → Created
create_for hash req none store = (store, inl client_not_found)
create_for hash req (some client) store = create_generated hash req client req.random_hex store

unfoldable pub create_api_key : (Text → String) → List Client → NewKey → KeyStore → Created
unfolding create_for create_generated create_resolved store_key
create_api_key hash clients req store = create_for hash req (find_by_id req.client_id clients) store

abbrev pub belongs : ℕ → ℕ → TenantApiKey → Bool
belongs key_id client_id key = nat_eq key.id key_id && nat_eq key.client_id client_id

abbrev pub deactivate : ℕ → ℕ → TenantApiKey → TenantApiKey
deactivate key_id client_id key =
    if belongs key_id client_id key then record key { active = false } else key

-- The first entry with the id, in the order in which the loop visits the map.
unfoldable pub hash_of_id : ℕ → List (String × TenantApiKey) → Option String
hash_of_id key_id [] = none
hash_of_id key_id ((hash, key) ∷ keys) =
    let later = hash_of_id key_id keys in if nat_eq key.id key_id then some hash else later

abbrev pub without : Option String → List (String × TenantApiKey) → List (String × TenantApiKey)
without none keys = keys
without (some hash) keys = delete hash keys

unfoldable pub revoke_api_key : Bool → ℕ → ℕ → KeyStore → KeyStore × Option KeyError
unfolding hash_of_id
revoke_api_key done key_id client_id store =
    if not done
    then (store, some query_failed)
    else if nat_eq (count (belongs key_id client_id) store.table) 0
    then (store, some not_found)
    else (
      record store {
        table = map (deactivate key_id client_id) store.table;
        api_keys = without (hash_of_id key_id store.api_keys) store.api_keys;
      },
      none,
    )

abbrev pub touched : ℕ → ℕ → TenantApiKey → TenantApiKey
touched key_id now key =
    if nat_eq key.id key_id then record key { last_used_at = some now } else key

-- The record that the map points to, and the row.
unfoldable pub touch_last_used : ℕ → ℕ → KeyStore → KeyStore
touch_last_used key_id now store = record store {
  table = map (touched key_id now) store.table;
  api_keys = map (λ e. (e.0, touched key_id now e.1)) store.api_keys;
}
