-- ===== src/ApiKeys/Revoking.antt =====
-- Revoking and touching a key of api_keys.go.
use gomsggw.Base.{
  ℕ, Bool, true, false, List, [], ◌∷◌, map, Option, none, some, String, nat_eq, nat_eq_iff,
  Eq_String, count, All, ◌≡◌, ◌≢◌, All-map, All-weaken, All-both, inl, inr, refl, sym, ap, ◌∙◌,
  Bool-cases, arith,
}
use gomsggw.Base.Map.{delete}
use gomsggw.ApiKeys.{TenantApiKey, KeyStore}
use gomsggw.ApiKeys.Operations.{
  revoke_api_key, touch_last_used, belongs, deactivate, hash_of_id, without, touched,
}
use gomsggw.ApiKeys.Store.{
  row_by_id, settled, Entry, Backed, InStore, row_by_id-map, row_by_id-id, delete-All,
}

module _ (key_id client_id : ℕ) where
  pub deactivate-id : (r : TenantApiKey) → (deactivate key_id client_id r).id ≡ r.id
  deactivate-id r = elim (Bool-cases (belongs key_id client_id r)) [
    | inl is ↦ rw is refl
    | inr is_not ↦ rw is_not refl
  ]

  other_row : (r : TenantApiKey) → r.id ≢ key_id → deactivate key_id client_id r ≡ r
  other_row r other = elim (Bool-cases (nat_eq r.id key_id)) [
    | inl is ↦ absurd (other ((nat_eq_iff r.id key_id).0 is))
    | inr is_not ↦ rw is_not refl
  ]

  -- A key with another id is backed by the same row.
  still_Backed :
      (table : List TenantApiKey) (e : Entry)
      → Backed table e
      → e.1.id ≢ key_id
      → Backed (map (deactivate key_id client_id) table) e
  still_Backed table e b other =
      let same_row : deactivate key_id client_id b.row ≡ b.row =
        other_row b.row (λ is. other (sym (row_by_id-id e.1.id table b.row b.found) ∙ is)) in
      record {
        row = b.row;
        found =
            row_by_id-map e.1.id (deactivate key_id client_id) table b.row deactivate-id b.found
            ∙ ap some same_row;
        same_hash = b.same_hash;
        active = b.active;
        same = b.same;
      }

  -- No entry has the id, or the hash that is found is that of every entry with the id.
  no_hash : (keys : List Entry) → hash_of_id key_id keys ≡ none → All (λ e. e.1.id ≢ key_id) keys
  unfolding hash_of_id
  no_hash [] h = tt
  no_hash (e ∷ keys) h = (λ same. ground (arith, h, same), no_hash keys (ground (arith, h)))

  the_hash :
      (table : List TenantApiKey) (keys : List Entry) (hash : String)
      → All (Backed table) keys
      → hash_of_id key_id keys ≡ some hash
      → (row : TenantApiKey) × (row_by_id key_id table ≡ some row) × (row.key_hash ≡ hash)
  unfolding hash_of_id
  the_hash table [] hash h found = cc
  the_hash table (e ∷ keys) hash h found = elim (Bool-cases (nat_eq e.1.id key_id)) [
    | inl is ↦ (
      h.0.row,
      ap (λ (id : ℕ). row_by_id id table) (sym ((nat_eq_iff e.1.id key_id).0 is)) ∙ h.0.found,
      h.0.same_hash ∙ ground (arith, found, is),
    )
    | inr is_not ↦ the_hash table keys hash h.1 (rw is_not at found)
  ]

  without-Backed :
      (table : List TenantApiKey) (keys : List Entry) (o : Option String)
      → hash_of_id key_id keys ≡ o
      → All (Backed table) keys
      → All (Backed (map (deactivate key_id client_id) table)) (without o keys)
  without-Backed table keys none found h =
      All-weaken _ _ keys (λ e b. still_Backed table e b.0 b.1)
        (All-both _ _ keys h (no_hash keys found))
  without-Backed table keys (some hash) found h =
      let (row, is_row, its_hash) = the_hash table keys hash h found in
      All-weaken _ _ (delete hash keys)
        (λ e b.
          still_Backed table e b.0
            (λ same. b.1 (cc (b.0.same_hash, b.0.found, same, is_row, its_hash))))
        (delete-All (Backed table) hash keys h)

  pub revoke_api_key-InStore :
      (done : Bool) (store : KeyStore)
      → InStore store
      → InStore (revoke_api_key done key_id client_id store).0
  unfolding revoke_api_key
  revoke_api_key-InStore false store h = h
  revoke_api_key-InStore true store h =
      elim (Bool-cases (nat_eq (count (belongs key_id client_id) store.table) 0)) [
        | inl nothing ↦ rw nothing h
        | inr some_row ↦ rw some_row (record {
          each =
              without-Backed store.table store.api_keys (hash_of_id key_id store.api_keys) refl
                h.each;
          own =
              All-map _ _ (deactivate key_id client_id) store.table
                (λ r o.
                  rw (deactivate-id r) (
                    row_by_id-map r.id (deactivate key_id client_id) store.table r deactivate-id o))
                h.own;
          fresh =
              All-map _ _ (deactivate key_id client_id) store.table (λ r l. rw (deactivate-id r) l)
                h.fresh;
        })
      ]

pub touched-id : (key_id now : ℕ) (r : TenantApiKey) → (touched key_id now r).id ≡ r.id
touched-id key_id now r = elim (Bool-cases (nat_eq r.id key_id)) [
  | inl is ↦ rw is refl
  | inr is_not ↦ rw is_not refl
]

pub touched-settled :
    (key_id now : ℕ) (r : TenantApiKey) → settled (touched key_id now r) ≡ settled r
touched-settled key_id now r = elim (Bool-cases (nat_eq r.id key_id)) [
  | inl is ↦ rw is refl
  | inr is_not ↦ rw is_not refl
]

touched-Backed :
    (key_id now : ℕ) (table : List TenantApiKey) (e : Entry)
    → Backed table e
    → Backed (map (touched key_id now) table) (e.0, touched key_id now e.1)
touched-Backed key_id now table e b = record {
  row = touched key_id now b.row;
  found =
      ap (λ (id : ℕ). row_by_id id (map (touched key_id now) table)) (touched-id key_id now e.1)
      ∙ row_by_id-map e.1.id (touched key_id now) table b.row (touched-id key_id now) b.found;
  same_hash =
      ap (λ (k : TenantApiKey). k.key_hash) (touched-settled key_id now b.row) ∙ b.same_hash;
  active = ap (λ (k : TenantApiKey). k.active) (touched-settled key_id now b.row) ∙ b.active;
  same = touched-settled key_id now b.row ∙ b.same ∙ sym (touched-settled key_id now e.1);
}

pub touch_last_used-InStore :
    (key_id now : ℕ) (store : KeyStore) → InStore store → InStore (touch_last_used key_id now store)
unfolding touch_last_used
touch_last_used-InStore key_id now store h = record {
  each =
      All-map _ _ (λ (e : Entry). (e.0, touched key_id now e.1)) store.api_keys
        (touched-Backed key_id now store.table) h.each;
  own =
      All-map _ _ (touched key_id now) store.table
        (λ r o.
          rw (touched-id key_id now r)
            (row_by_id-map r.id (touched key_id now) store.table r (touched-id key_id now) o))
        h.own;
  fresh =
      All-map _ _ (touched key_id now) store.table (λ r l. rw (touched-id key_id now r) l) h.fresh;
}
