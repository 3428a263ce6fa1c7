-- ===== src/Table/State.antt =====
-- The data of src/LFLRUHashTable.h. An array is a function from the index beside its bound.
use yamemcached.Base.{
  ℕ, Bool, List, Outcome, ok, fault, abort, ltb, leb, ◌+◌, if◌then◌else◌, update,
}

-- What the table takes of its keys: `operator==` and the hasher.
pub record Keys (K : Type 0) : Type 0 where
  pub same : K → K → Bool
  pub hasher : K → ℕ

abbrev pub max_lock_depth : ℕ
max_lock_depth = 246

-- The marks of the lists, and those of the slots.
abbrev pub access_lock_mark : ℕ
access_lock_mark = 0xFFFF_FFFF

abbrev pub list_end_mark : ℕ
list_end_mark = 0xFFFF_FFFE

abbrev pub hash_free_mark : ℕ
hash_free_mark = 0xFFFF_FFFF

abbrev pub hash_lock_mark : ℕ
hash_lock_mark = 0xFFFF_FFFE

pub record Links : Type 0 where
  pub left : ℕ
  pub right : ℕ

pub record Element (K V : Type 0) : Type 0 where
  pub links : Links
  pub key : K
  pub value : V

-- `pair<position, element>` under its expiry time
pub record Expiry : Type 0 where
  pub time : ℕ
  pub pos : ℕ
  pub element : ℕ

-- `ThreadLRUList`, with the fields that the methods use
pub record ThreadList : Type 0 where
  pub head : ℕ
  pub tail : ℕ
  pub free_list_head : ℕ
  pub moves : ℕ
  pub exp_time_map : List Expiry
  pub locks : ℕ → ℕ

pub record Table (K V : Type 0) : Type 0 where
  pub lists : ℕ → ThreadList
  pub elements : ℕ → Element K V
  pub element_links : ℕ → ℕ
  pub num_elements : ℕ
  pub hash_size : ℕ
  pub num_threads : ℕ
  pub next_thread_id : ℕ

module _ {K V : Type 0} where
  -- `elementStorage[idx]`
  unfoldable pub element : Table K V → ℕ → Outcome (Element K V)
  element t idx = if ltb idx t.num_elements then ok (t.elements idx) else fault

  abbrev pub set_element : Table K V → ℕ → Element K V → Table K V
  set_element t idx e = record t { elements = update t.elements idx e }

  abbrev pub set_list : Table K V → ℕ → ThreadList → Table K V
  set_list t thread l = record t { lists = update t.lists thread l }

  abbrev pub set_slot : Table K V → ℕ → ℕ → Table K V
  set_slot t pos idx = record t { element_links = update t.element_links pos idx }

  abbrev pub with_links : Table K V → ℕ → Element K V → Links → Table K V
  with_links t idx e l = set_element t idx (record e { links = l })

  -- `getMyThreadId`
  unfoldable pub get_my_thread_id : Table K V → Outcome (ℕ × Table K V)
  get_my_thread_id t =
      if leb t.num_threads t.next_thread_id
      then abort
      else ok (t.next_thread_id, record t { next_thread_id = t.next_thread_id + 1 })
