-- ===== src/ApiKeys/Inactive.antt =====
-- A key of api_keys.go that was revoked stays so.
use gomsggw.Base.{
  ℕ, Bool, true, false, List, [], ◌∷◌, ◌++◌, map, Option, none, some, String, Text, nat_eq,
  nat_eq_iff, Eq_String, count, All, ◌≡◌, inl, inr, refl, sym, ap, ◌∙◌, Bool-cases, arith,
}
use gomsggw.Client.{Client}
use gomsggw.Router.Clients.{find_by_id}
use gomsggw.ApiKeys.{
  TenantApiKey, KeyStore, load_api_keys, Resolved, resolved, unknown, resolve_numbers,
}
use gomsggw.ApiKeys.Operations.{
  NewKey, create_api_key, create_for, create_generated, create_resolved, store_key, new_key,
  api_key_prefix, revoke_api_key, touch_last_used, belongs, deactivate, touched,
}
use gomsggw.ApiKeys.Store.{row_by_id, InStore, row_by_id-map, row_by_id-append}
use gomsggw.ApiKeys.Revoking.{deactivate-id, touched-id, touched-settled}
use gomsggw.ApiKeys.Runs.{KeyOperation, load, create, revoke, touch, operate, operate_all}

-- A row of the table is no longer active.
pub record Inactive (key_id : ℕ) (table : List TenantApiKey) : Type 0 where
  pub row : TenantApiKey
  pub found : row_by_id key_id table ≡ some row
  pub inactive : row.active ≡ false

Inactive-append :
    (key_id : ℕ) (table : List TenantApiKey) (key : TenantApiKey)
    → Inactive key_id table
    → Inactive key_id (table ++ (key ∷ []))
Inactive-append key_id table key h = record {
  row = h.row;
  found = row_by_id-append key_id table key h.row h.found;
  inactive = h.inactive;
}

Inactive-map :
    (key_id : ℕ) (f : TenantApiKey → TenantApiKey) (table : List TenantApiKey)
    → ((r : TenantApiKey) → (f r).id ≡ r.id)
    → ((r : TenantApiKey) → r.active ≡ false → (f r).active ≡ false)
    → Inactive key_id table
    → Inactive key_id (map f table)
Inactive-map key_id f table same off h = record {
  row = f h.row;
  found = row_by_id-map key_id f table h.row same h.found;
  inactive = off h.row h.inactive;
}

deactivate-off :
    (key_id client_id : ℕ) (r : TenantApiKey)
    → r.active ≡ false
    → (deactivate key_id client_id r).active ≡ false
deactivate-off key_id client_id r h = elim (Bool-cases (belongs key_id client_id r)) [
  | inl is ↦ rw is refl
  | inr is_not ↦ rw is_not h
]

touched-off :
    (key_id now : ℕ) (r : TenantApiKey) → r.active ≡ false → (touched key_id now r).active ≡ false
touched-off key_id now r h = ap (λ (k : TenantApiKey). k.active) (touched-settled key_id now r) ∙ h

module _ (hash : Text → String) (key_id : ℕ) where
  store_key-Inactive :
      (key : TenantApiKey) (raw : Text) (taken : Bool) (store : KeyStore)
      → Inactive key_id store.table
      → Inactive key_id (store_key key raw taken store).0.table
  unfolding store_key
  store_key-Inactive key raw false store h = h
  store_key-Inactive key raw true store h = Inactive-append key_id store.table key h

  create_resolved-Inactive :
      (req : NewKey) (raw : Text) (r : Resolved) (store : KeyStore)
      → Inactive key_id store.table
      → Inactive key_id (create_resolved hash req raw r store).0.table
  unfolding create_resolved
  create_resolved-Inactive req raw (unknown id) store h = h
  create_resolved-Inactive req raw (resolved numbers) store h =
      store_key-Inactive (new_key hash req raw numbers store.next_id) raw req.row_taken store h

  create_generated-Inactive :
      (req : NewKey) (client : Client) (random : Option Text) (store : KeyStore)
      → Inactive key_id store.table
      → Inactive key_id (create_generated hash req client random store).0.table
  unfolding create_generated
  create_generated-Inactive req client none store h = h
  create_generated-Inactive req client (some random) store h =
      create_resolved-Inactive req (api_key_prefix ++ random)
        (resolve_numbers client.numbers req.allowed_number_ids) store h

  create_for-Inactive :
      (req : NewKey) (client : Option Client) (store : KeyStore)
      → Inactive key_id store.table
      → Inactive key_id (create_for hash req client store).0.table
  unfolding create_for
  create_for-Inactive req none store h = h
  create_for-Inactive req (some client) store h =
      create_generated-Inactive req client req.random_hex store h

  revoke_api_key-Inactive :
      (done : Bool) (id client_id : ℕ) (store : KeyStore)
      → Inactive key_id store.table
      → Inactive key_id (revoke_api_key done id client_id store).0.table
  unfolding revoke_api_key
  revoke_api_key-Inactive false id client_id store h = h
  revoke_api_key-Inactive true id client_id store h =
      elim (Bool-cases (nat_eq (count (belongs id client_id) store.table) 0)) [
        | inl nothing ↦ rw nothing h
        | inr some_row ↦ rw some_row (
            Inactive-map key_id (deactivate id client_id) store.table (deactivate-id id client_id)
              (deactivate-off id client_id) h)
      ]

  operate-Inactive :
      (op : KeyOperation) (store : KeyStore)
      → Inactive key_id store.table
      → Inactive key_id (operate hash op store).table
  unfolding operate create_api_key load_api_keys touch_last_used
  operate-Inactive (load false) store h = h
  operate-Inactive (load true) store h = h
  operate-Inactive (create clients req) store h =
      create_for-Inactive req (find_by_id req.client_id clients) store h
  operate-Inactive (revoke done id client_id) store h =
      revoke_api_key-Inactive done id client_id store h
  operate-Inactive (touch id now) store h =
      Inactive-map key_id (touched id now) store.table (touched-id id now) (touched-off id now) h

  pub operate_all-Inactive :
      (ops : List KeyOperation) (store : KeyStore)
      → Inactive key_id store.table
      → Inactive key_id (operate_all hash ops store).table
  unfolding operate_all
  operate_all-Inactive [] store h = h
  operate_all-Inactive (op ∷ ops) store h =
      operate_all-Inactive ops (operate hash op store) (operate-Inactive op store h)

-- A row that a revocation is for.
revoked_row :
    (key_id client_id : ℕ) (table rows : List TenantApiKey)
    → All (λ r. row_by_id r.id table ≡ some r) rows
    → nat_eq (count (belongs key_id client_id) rows) 0 ≡ false
    → (r : TenantApiKey) × (row_by_id key_id table ≡ some r) × (belongs key_id client_id r ≡ true)
revoked_row key_id client_id table [] own h = cc
revoked_row key_id client_id table (r ∷ rows) own h =
    elim (Bool-cases (belongs key_id client_id r)) [
      | inl is ↦ (
        r,
        ap (λ (id : ℕ). row_by_id id table) (sym ((nat_eq_iff r.id key_id).0 (ground (arith, is))))
            ∙ own.0,
        is,
      )
      | inr is_not ↦ revoked_row key_id client_id table rows own.1 (ground (arith, is_not, h))
    ]

deactivated :
    (key_id client_id : ℕ) (r : TenantApiKey)
    → belongs key_id client_id r ≡ true
    → (deactivate key_id client_id r).active ≡ false
deactivated key_id client_id r h = rw h refl

pub revoke_api_key-revokes :
    (key_id client_id : ℕ) (store : KeyStore)
    → InStore store
    → (revoke_api_key true key_id client_id store).1 ≡ none
    → Inactive key_id (revoke_api_key true key_id client_id store).0.table
unfolding revoke_api_key
revoke_api_key-revokes key_id client_id store h done =
    elim (Bool-cases (nat_eq (count (belongs key_id client_id) store.table) 0)) [
      | inl nothing ↦ absurd (ground (arith, done, nothing))
      | inr some_row ↦
          let (r, found, is) =
            revoked_row key_id client_id store.table store.table h.own some_row in
          rw some_row (record {
            row = deactivate key_id client_id r;
            found =
                row_by_id-map key_id (deactivate key_id client_id) store.table r
                  (deactivate-id key_id client_id) found;
            inactive = deactivated key_id client_id r is;
          })
    ]
