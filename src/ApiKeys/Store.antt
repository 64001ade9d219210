-- ===== src/ApiKeys/Store.antt =====
-- The map of API keys against the table of the database, for every sequence of the operations of
-- api_keys.go.
use gomsggw.Base.{
  ℕ, ◌<◌, Bool, true, false, List, [], ◌∷◌, ◌++◌, map, Option, none, some, String, Text, nat_eq,
  nat_eq_iff, Eq_String, ◌==◌, ==_iff, All, ◌≡◌, ◌≢◌, All-weaken, inl, inr, refl, if◌then◌else◌,
  Bool-cases, arith,
}
use gomsggw.Base.Map.{insert, delete}
use gomsggw.ApiKeys.{TenantApiKey, KeyStore, fill_keys, active_rows, load_api_keys}
use gomsggw.ApiKeys.Operations.{store_key}

-- The row with an id.
unfoldable pub row_by_id : ℕ → List TenantApiKey → Option TenantApiKey
row_by_id id [] = none
row_by_id id (r ∷ rows) = let later = row_by_id id rows in if nat_eq r.id id then some r else later

-- All of a key but when it was last used.
abbrev pub settled : TenantApiKey → TenantApiKey
settled key = record key { last_used_at = none }

abbrev pub Entry : Type 0
Entry = String × TenantApiKey

-- An entry of the map is there for an active row with its hash, and tells the same of the key.
pub record Backed (table : List TenantApiKey) (e : Entry) : Type 0 where
  pub row : TenantApiKey
  pub found : row_by_id e.1.id table ≡ some row
  pub same_hash : row.key_hash ≡ e.0
  pub active : row.active ≡ true
  pub same : settled row ≡ settled e.1

pub record InStore (store : KeyStore) : Type 0 where
  pub each : All (Backed store.table) store.api_keys
  pub own : All (λ r. row_by_id r.id store.table ≡ some r) store.table
  pub fresh : All (λ r. r.id < store.next_id) store.table

pub row_by_id-append :
    (id : ℕ) (rows : List TenantApiKey) (key r : TenantApiKey)
    → row_by_id id rows ≡ some r
    → row_by_id id (rows ++ (key ∷ [])) ≡ some r
unfolding row_by_id
row_by_id-append id [] key found h = cc
row_by_id-append id (r ∷ rows) key found h = ground (arith, row_by_id-append id rows key found)

row_by_id-new :
    (rows : List TenantApiKey) (key : TenantApiKey)
    → All (λ r. r.id < key.id) rows
    → row_by_id key.id (rows ++ (key ∷ [])) ≡ some key
unfolding row_by_id
row_by_id-new [] key h = ground (arith, nat_eq_iff key.id key.id)
row_by_id-new (r ∷ rows) key h = ground (arith, h.0, row_by_id-new rows key h.1)

pub row_by_id-map :
    (id : ℕ) (f : TenantApiKey → TenantApiKey) (rows : List TenantApiKey) (r : TenantApiKey)
    → ((k : TenantApiKey) → (f k).id ≡ k.id)
    → row_by_id id rows ≡ some r
    → row_by_id id (map f rows) ≡ some (f r)
unfolding row_by_id
row_by_id-map id f [] found law h = cc
row_by_id-map id f (r ∷ rows) found law h = ground (arith, law r, row_by_id-map id f rows found law)

pub row_by_id-id :
    (id : ℕ) (rows : List TenantApiKey) (r : TenantApiKey) → row_by_id id rows ≡ some r → r.id ≡ id
unfolding row_by_id
row_by_id-id id [] found h = cc
row_by_id-id id (r ∷ rows) found h = ground (arith, nat_eq_iff r.id id, row_by_id-id id rows found)

-- What is left of a map without a hash.
pub delete-All :
    (P : Entry → Type 0) (hash : String) (keys : List Entry)
    → All P keys
    → All (λ e. P e × (e.0 ≢ hash)) (delete hash keys)
unfolding delete
delete-All P hash [] h = tt
delete-All P hash (e ∷ keys) h = elim (Bool-cases (e.0 == hash)) [
  | inl gone ↦ rw gone (delete-All P hash keys h.1)
  | inr stays ↦
      rw stays
        ((h.0, λ same. ground (arith, ==_iff e.0 hash, same, stays)), delete-All P hash keys h.1)
]

All-append :
    (P : TenantApiKey → Type 0) (rows : List TenantApiKey) (key : TenantApiKey)
    → All P rows
    → P key
    → All P (rows ++ (key ∷ []))
All-append P [] key h k = (k, tt)
All-append P (r ∷ rows) key h k = (h.0, All-append P rows key h.1 k)

-- A row that the map is filled with.
abbrev Own : List TenantApiKey → TenantApiKey → Type 0
Own table r = (row_by_id r.id table ≡ some r) × (r.active ≡ true)

All-if :
    (P : TenantApiKey → Type 0) (b : Bool) (r : TenantApiKey) (rows : List TenantApiKey)
    → (b ≡ true → P r)
    → All P rows
    → All P (if b then r ∷ rows else rows)
All-if P true r rows h k = (h refl, k)
All-if P false r rows h k = k

active_rows-Own :
    (table rows : List TenantApiKey)
    → All (λ r. row_by_id r.id table ≡ some r) rows
    → All (Own table) (active_rows rows)
unfolding active_rows
active_rows-Own table [] h = tt
active_rows-Own table (r ∷ rows) h =
    All-if (Own table) r.active r (active_rows rows) (λ on. (h.0, on))
      (active_rows-Own table rows h.1)

fill_keys-Backed :
    (table rows : List TenantApiKey) (keys : List Entry)
    → All (Own table) rows
    → All (Backed table) keys
    → All (Backed table) (fill_keys rows keys)
unfolding fill_keys insert
fill_keys-Backed table [] keys h k = k
fill_keys-Backed table (r ∷ rows) keys h k = fill_keys-Backed table rows _ h.1 (
  record { row = r; found = h.0.0; same_hash = refl; active = h.0.1; same = refl },
  All-weaken _ _ (delete r.key_hash keys) (λ e b. b.0)
      (delete-All (Backed table) r.key_hash keys k),
)

pub load_api_keys-InStore :
    (done : Bool) (store : KeyStore) → InStore store → InStore (load_api_keys done store)
unfolding load_api_keys
load_api_keys-InStore false store h = h
load_api_keys-InStore true store h = record {
  each =
      fill_keys-Backed store.table (active_rows store.table) []
        (active_rows-Own store.table store.table h.own) tt;
  own = h.own;
  fresh = h.fresh;
}

pub store_key-InStore :
    (key : TenantApiKey) (raw : Text) (taken : Bool) (store : KeyStore)
    → key.id ≡ store.next_id
    → key.active ≡ true
    → InStore store
    → InStore (store_key key raw taken store).0
unfolding store_key insert
store_key-InStore key raw false store same on h = h
store_key-InStore key raw true store same on h =
    let earlier : All (λ r. r.id < key.id) store.table = rw same h.fresh in
    record {
      each = (
        record {
          row = key;
          found = row_by_id-new store.table key earlier;
          same_hash = refl;
          active = on;
          same = refl;
        },
        All-weaken _ _ (delete key.key_hash store.api_keys)
            (λ e b. record {
              row = b.0.row;
              found = row_by_id-append e.1.id store.table key b.0.row b.0.found;
              same_hash = b.0.same_hash;
              active = b.0.active;
              same = b.0.same;
            })
            (delete-All (Backed store.table) key.key_hash store.api_keys h.each),
      );
      own =
          All-append _ store.table key
            (All-weaken _ _ store.table (λ r o. row_by_id-append r.id store.table key r o) h.own)
            (row_by_id-new store.table key earlier);
      fresh =
          All-append _ store.table key
            (All-weaken _ _ store.table (λ r l. omega (arith, l)) h.fresh) (omega (arith, same));
    }
