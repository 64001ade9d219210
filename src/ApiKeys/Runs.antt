-- ===== src/ApiKeys/Runs.antt =====
-- Sequences of the operations of api_keys.go.
use gomsggw.Base.{
  ℕ, Bool, List, [], ◌∷◌, ◌++◌, Option, none, some, String, Text, Eq_String, ◌==◌, ==_iff, All, ◌≡◌,
  inl, inr, refl, subst, Bool-cases, arith,
}
use gomsggw.Base.Map.{lookup}
use gomsggw.Client.{Client}
use gomsggw.Router.Clients.{find_by_id}
use gomsggw.ApiKeys.{
  TenantApiKey, KeyStore, load_api_keys, no_keys, Resolved, resolved, unknown, resolve_numbers,
}
use gomsggw.ApiKeys.Operations.{
  NewKey, create_api_key, create_for, create_generated, create_resolved, new_key, api_key_prefix,
  revoke_api_key, touch_last_used,
}
use gomsggw.ApiKeys.Store.{Entry, InStore, load_api_keys-InStore, store_key-InStore}
use gomsggw.ApiKeys.Revoking.{revoke_api_key-InStore, touch_last_used-InStore}

-- An operation on the keys, with what its environment answers.
pub data KeyOperation : Type 0 where
  load : Bool → KeyOperation
  create : List Client → NewKey → KeyOperation
  revoke : Bool → ℕ → ℕ → KeyOperation
  touch : ℕ → ℕ → KeyOperation

unfoldable pub operate : (Text → String) → KeyOperation → KeyStore → KeyStore
operate hash (load done) store = load_api_keys done store
operate hash (create clients req) store = (create_api_key hash clients req store).0
operate hash (revoke done key_id client_id) store = (revoke_api_key done key_id client_id store).0
operate hash (touch key_id now) store = touch_last_used key_id now store

unfoldable pub operate_all : (Text → String) → List KeyOperation → KeyStore → KeyStore
unfolding operate
operate_all hash [] store = store
operate_all hash (op ∷ ops) store = operate_all hash ops (operate hash op store)

module _ (hash : Text → String) where
  create_resolved-InStore :
      (req : NewKey) (raw : Text) (r : Resolved) (store : KeyStore)
      → InStore store
      → InStore (create_resolved hash req raw r store).0
  unfolding create_resolved
  create_resolved-InStore req raw (unknown id) store h = h
  create_resolved-InStore req raw (resolved numbers) store h =
      store_key-InStore (new_key hash req raw numbers store.next_id) raw req.row_taken store refl
        refl h

  create_generated-InStore :
      (req : NewKey) (client : Client) (random : Option Text) (store : KeyStore)
      → InStore store
      → InStore (create_generated hash req client random store).0
  unfolding create_generated
  create_generated-InStore req client none store h = h
  create_generated-InStore req client (some random) store h =
      create_resolved-InStore req (api_key_prefix ++ random)
        (resolve_numbers client.numbers req.allowed_number_ids) store h

  create_for-InStore :
      (req : NewKey) (client : Option Client) (store : KeyStore)
      → InStore store
      → InStore (create_for hash req client store).0
  unfolding create_for
  create_for-InStore req none store h = h
  create_for-InStore req (some client) store h =
      create_generated-InStore req client req.random_hex store h

  operate-InStore :
      (op : KeyOperation) (store : KeyStore) → InStore store → InStore (operate hash op store)
  unfolding operate create_api_key
  operate-InStore (load done) store h = load_api_keys-InStore done store h
  operate-InStore (create clients req) store h =
      create_for-InStore req (find_by_id req.client_id clients) store h
  operate-InStore (revoke done key_id client_id) store h =
      revoke_api_key-InStore key_id client_id done store h
  operate-InStore (touch key_id now) store h = touch_last_used-InStore key_id now store h

  pub operate_all-InStore :
      (ops : List KeyOperation) (store : KeyStore)
      → InStore store
      → InStore (operate_all hash ops store)
  unfolding operate_all
  operate_all-InStore [] store h = h
  operate_all-InStore (op ∷ ops) store h =
      operate_all-InStore ops (operate hash op store) (operate-InStore op store h)

  pub no_keys-InStore : InStore no_keys
  no_keys-InStore = record { each = tt; own = tt; fresh = tt }

pub lookup-All :
    (P : Entry → Type 0) (hash : String) (keys : List Entry) (k : TenantApiKey)
    → All P keys
    → lookup hash keys ≡ some k
    → P (hash, k)
unfolding lookup
lookup-All P hash [] k h found = cc
lookup-All P hash (e ∷ keys) k h found = elim (Bool-cases (e.0 == hash)) [
  | inl here ↦
      let same_hash : e.0 ≡ hash = (==_iff e.0 hash).0 here in
      let same_key : e.1 ≡ k = ground (arith, found, here) in
      subst P (λ i. (same_hash i, same_key i)) h.0
  | inr elsewhere ↦ lookup-All P hash keys k h.1 (rw elsewhere at found)
]
