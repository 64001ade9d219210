-- ===== src/ApiKeys/Accepted.antt =====
-- What a raw key is accepted for, after any operations of api_keys.go.
use gomsggw.Base.{
  ℕ, true, false, List, Option, none, some, String, Text, Eq_String, ◌≡◌, ◌≢◌, ap, ◌∙◌, arith,
}
use gomsggw.Base.Map.{lookup}
use gomsggw.ApiKeys.{TenantApiKey, KeyStore, usable, is_expired, lookup_api_key, no_keys}
use gomsggw.ApiKeys.Operations.{revoke_api_key}
use gomsggw.ApiKeys.Store.{row_by_id, settled, Backed, InStore}
use gomsggw.ApiKeys.Revoking.{revoke_api_key-InStore}
use gomsggw.ApiKeys.Runs.{
  KeyOperation, operate_all, operate_all-InStore, no_keys-InStore, lookup-All,
}
use gomsggw.ApiKeys.Inactive.{operate_all-Inactive, revoke_api_key-revokes}

usable-eq :
    (now : ℕ) (o : Option TenantApiKey) (k : TenantApiKey)
    → usable now o ≡ some k
    → (o ≡ some k) × (is_expired now k ≡ false)
unfolding is_expired
usable-eq now none k h = cc
usable-eq now (some key) k h = ground (arith, h)

same-is_expired :
    (now : ℕ) (r k : TenantApiKey) → settled r ≡ settled k → is_expired now r ≡ is_expired now k
unfolding is_expired
same-is_expired now r k h = ap (λ (key : TenantApiKey). is_expired now key) h

-- The row that stands behind a key that is accepted.
pub record Stored (hash : Text → String) (now : ℕ) (raw : Text) (table : List TenantApiKey)
    (key : TenantApiKey) : Type 0 where
  pub row : TenantApiKey
  pub found : row_by_id key.id table ≡ some row
  pub same_hash : row.key_hash ≡ hash raw
  pub active : row.active ≡ true
  pub not_expired : is_expired now row ≡ false
  pub same : settled row ≡ settled key

lookup_api_key-Stored :
    (hash : Text → String) (now : ℕ) (raw : Text) (store : KeyStore) (key : TenantApiKey)
    → InStore store
    → lookup_api_key hash now raw store ≡ some key
    → Stored hash now raw store.table key
unfolding lookup_api_key
lookup_api_key-Stored hash now raw store key h found =
    let (there, current) = usable-eq now (lookup (hash raw) store.api_keys) key found in
    let b = lookup-All (Backed store.table) (hash raw) store.api_keys key h.each there in
    record {
      row = b.row;
      found = b.found;
      same_hash = b.same_hash;
      active = b.active;
      not_expired = same-is_expired now b.row key b.same ∙ current;
      same = b.same;
    }

active_and_not :
    (id key_id : ℕ) (table : List TenantApiKey) (r s : TenantApiKey)
    → id ≡ key_id
    → row_by_id id table ≡ some r
    → row_by_id key_id table ≡ some s
    → r.active ≡ true
    → s.active ≡ false
    → ⊥
active_and_not id key_id table r s same h k on off = cc

module _ (hash : Text → String) (before : List KeyOperation) where
  -- When `lookupAPIKey` accepts a raw key, after any operations on a gateway without keys, the table
  -- has an active row with the hash of the raw key and the id of the key found, which is not
  -- expired and tells the same of the key but for the time of its last use.
  pub lookup_api_key_sound :
      (now : ℕ) (raw : Text) {key : TenantApiKey}
      → lookup_api_key hash now raw (operate_all hash before no_keys) ≡ some key
      → Stored hash now raw (operate_all hash before no_keys).table key
  lookup_api_key_sound now raw {key} h =
      lookup_api_key-Stored hash now raw (operate_all hash before no_keys) key
        (operate_all-InStore hash before no_keys (no_keys-InStore hash)) h

  -- After a revocation that reports no error, at any point of a gateway's operations, and after any
  -- further operations, no raw key is accepted for the key with that id.
  pub lookup_api_key-revoked :
      (key_id client_id : ℕ) (after : List KeyOperation) (now : ℕ) (raw : Text) {key : TenantApiKey}
      → (revoke_api_key true key_id client_id (operate_all hash before no_keys)).1 ≡ none
      → lookup_api_key hash now raw (
          operate_all hash after
            (revoke_api_key true key_id client_id (operate_all hash before no_keys)).0)
        ≡ some key
      → key.id ≢ key_id
  lookup_api_key-revoked key_id client_id after now raw {key} done h same =
      let store = operate_all hash before no_keys in
      let sound = operate_all-InStore hash before no_keys (no_keys-InStore hash) in
      let next = (revoke_api_key true key_id client_id store).0 in
      let end = operate_all hash after next in
      let off =
        operate_all-Inactive hash key_id after next
          (revoke_api_key-revokes key_id client_id store sound done) in
      let stored =
        lookup_api_key-Stored hash now raw end key
          (operate_all-InStore hash after next
            (revoke_api_key-InStore key_id client_id true store sound))
          h in
      active_and_not key.id key_id end.table stored.row off.row same stored.found off.found
        stored.active off.inactive
