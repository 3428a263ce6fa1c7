-- ===== src/Request/Store.antt =====
-- The store that the two protocols work on: the methods of the hash table that
-- src/RequestProcessor.cpp and src/YAMBinaryProtocolProcessor.cpp call.
use yamemcached.Base.{ℕ, ◌+◌, Bool, Option, List, Outcome}
use yamemcached.Table.State.{Keys, Table}
use yamemcached.Table.Methods.{get, insert_or_set, insert, set, remove}
use yamemcached.Table.Locked.{get_locked, set_locked, unlock_element}
use yamemcached.Table.Walk.{process_hash}
use yamemcached.Request.Info.{StorageValue}

pub record Store (S : Type 0) : Type 0 where
  pub insert_or_set : S → ℕ → List ℕ → StorageValue → ℕ → Outcome (Bool × S)
  pub insert : S → ℕ → List ℕ → StorageValue → ℕ → Outcome (Bool × S)
  pub set : S → ℕ → List ℕ → StorageValue → ℕ → Outcome (Bool × S)
  pub get : S → ℕ → List ℕ → Outcome (Option StorageValue × S)
  pub remove : S → ℕ → List ℕ → Outcome (Bool × S)
  pub get_locked : S → ℕ → List ℕ → (ℕ → ℕ) → Outcome (Option StorageValue × S × (ℕ → ℕ))
  pub set_locked : S → ℕ → StorageValue → ℕ → (ℕ → ℕ) → ℕ → ℕ → Outcome (Bool × S)
  pub unlock_element : S → (ℕ → ℕ) → ℕ → ℕ → Outcome (Bool × S)
  pub count : S → Outcome ℕ

-- `SLFSPHTItemCounter`
unfoldable pub count_item : ℕ → ℕ → ℕ
count_item idx count = count + 1

-- `LFStringMap`: the table whose keys are strings.
abbrev pub table_store : ⦃keys : Keys (List ℕ)⦄ → Store (Table (List ℕ) StorageValue)
table_store = record {
  insert_or_set = insert_or_set;
  insert = insert;
  set = set;
  get = get;
  remove = remove;
  get_locked = get_locked;
  set_locked = set_locked;
  unlock_element = unlock_element;
  count = λ t. process_hash count_item t 0;
}
