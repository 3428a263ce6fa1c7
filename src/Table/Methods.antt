-- ===== src/Table/Methods.antt =====
-- The constructor and the public methods of src/LFLRUHashTable.h.
use yamemcached.Base.{
  ℕ, ◌+◌, ◌*◌, ◌/◌, ◌%◌, Bool, true, false, Option, none, some, [], Outcome, ok, abort, fault,
  ◌>>=◌, ltb, leb, ◌==◌, if◌then◌else◌, ◌&&◌, ◌||◌, not,
}
use yamemcached.Table.State.{
  Keys, Links, Table, element, set_element, list_end_mark, hash_free_mark,
}
use yamemcached.Table.Probe.{
  Probe, current, write_lock, find_key, home, own_locks, release, remove_from_hash_pos,
  remove_from_hash_key,
}
use yamemcached.Table.Recent.{unlink_element, unlink_tail, link_head, touch, push_free, pop_free}
use yamemcached.Table.Expiry.{add_item_exp_time}

-- The links that the constructor gives element `idx`: to the next, or to none for the last of
-- each thread's share.
unfoldable pub first_links : ℕ → ℕ → ℕ → Links
first_links per_thread threads idx = record {
  left = list_end_mark;
  right =
      if ltb (idx / per_thread) threads && ((idx + 1) % per_thread == 0)
      then list_end_mark
      else idx + 1;
}

module _ {K V : Type 0} where
  -- What the constructor makes.
  abbrev pub new_table : ℕ → ℕ → ℕ → K → V → (ℕ → ℕ) → Table K V
  new_table num_elements hash_size num_threads zero_key zero_value junk =
      let per_thread = num_elements / num_threads in
      record {
        lists = λ thread. record {
          head = list_end_mark;
          tail = list_end_mark;
          free_list_head = thread * per_thread;
          moves = 0;
          exp_time_map = [];
          locks = junk;
        };
        elements = λ idx. record {
          links = first_links per_thread num_threads idx;
          key = zero_key;
          value = zero_value;
        };
        element_links = λ _. hash_free_mark;
        num_elements = num_elements;
        hash_size = hash_size;
        num_threads = num_threads;
        next_thread_id = 0;
      }

  -- The constructor; `zero_key` and `zero_value` are what `memset` makes of a key and a value, `junk`
  -- what `malloc` leaves in the arrays of locks. Where a thread has no element, the one before the
  -- first is read; the check of the links passes where there are fewer elements than `list_end_mark`.
  unfoldable pub init : ℕ → ℕ → ℕ → K → V → (ℕ → ℕ) → Outcome (Table K V)
  init num_elements hash_size num_threads zero_key zero_value junk =
      if leb hash_size num_elements
      then abort
      else if num_threads == 0 || (num_elements / num_threads == 0)
      then fault
      else ok (new_table num_elements hash_size num_threads zero_key zero_value junk)

  -- `elementStorage[idx].value = inValue`
  unfoldable pub store_value : Table K V → ℕ → V → Outcome (Table K V)
  store_value t idx v = element t idx >>= λ e. ok (set_element t idx (record e { value = v }))

  unfoldable pub store_item : Table K V → ℕ → K → V → Outcome (Table K V)
  store_item t idx k v =
      element t idx >>= λ e. ok (set_element t idx (record e { key = k; value = v }))

module _ {K V : Type 0} ⦃keys : Keys K⦄ where
  -- `get` with no `casLocks`: the value, if the key is there
  unfoldable pub get : Table K V → ℕ → K → Outcome (Option V × Table K V)
  get t thread k = find_key t (own_locks t thread) k >>= λ r.
      let p = r.1 in
      if r.0
      then (element p.table (current p) >>= λ e. release t thread (home t k) p >>= λ t1.
          touch t1 thread (current p) >>= λ t2. ok (some e.value, t2))
      else (release t thread (home t k) p >>= λ t1. ok (none, t1))

  -- The key is there: the value is replaced, and the element is used.
  unfoldable pub overwrite : Table K V → ℕ → K → V → Probe K V → Outcome (Table K V)
  overwrite t thread k v p = store_value p.table (current p) v >>= λ stored.
      release t thread (home t k) (record p { table = stored }) >>= λ t1.
      touch t1 thread (current p)

  -- The key is not there: `idx` takes the free slot at the end of the chain.
  unfoldable pub occupy : Table K V → ℕ → ℕ → K → V → Probe K V → Outcome (Table K V)
  occupy t thread idx k v p = write_lock p.locks p.depth idx >>= λ locks.
      store_item p.table idx k v >>= λ stored.
      release t thread (home t k) (record p { table = stored; locks = locks }) >>= λ t1.
      link_head t1 thread idx

  -- With no free element left, the least recently used one is removed. What comes back is the
  -- variable `elementToInsert`, which then names the evicted element. `must` is `insertOrSet`'s
  -- check that the slots had it.
  unfoldable pub evict : Bool → Table K V → ℕ → ℕ → Outcome (ℕ × Table K V)
  evict must t thread idx =
      if (t.lists thread).free_list_head == list_end_mark
      then (unlink_tail t thread >>= λ old. remove_from_hash_pos old.1 thread old.0 >>= λ removed.
          if must && not removed.0
          then abort
          else (push_free removed.1 thread old.0 >>= λ t'. ok (old.0, t')))
      else ok (idx, t)

  -- `insertOrSet`: `true` if inserted
  unfoldable pub insert_or_set : Table K V → ℕ → K → V → ℕ → Outcome (Bool × Table K V)
  insert_or_set t thread k v exp_time = pop_free t thread >>= λ free.
      find_key free.1 (own_locks free.1 thread) k >>= λ r.
      if r.0
      then (overwrite free.1 thread k v r.1 >>= λ t1.
          push_free t1 thread free.0 >>= λ t2. ok (false, t2))
      else (occupy free.1 thread free.0 k v r.1 >>= λ t1. evict true t1 thread free.0 >>= λ last.
          ok (true, add_item_exp_time last.1 thread (home t k) last.0 exp_time))

  -- `insert`: nothing is changed where the key is there
  unfoldable pub insert : Table K V → ℕ → K → V → ℕ → Outcome (Bool × Table K V)
  insert t thread k v exp_time = pop_free t thread >>= λ free.
      find_key free.1 (own_locks free.1 thread) k >>= λ r.
      if r.0
      then (release free.1 thread (home t k) r.1 >>= λ t1.
          push_free t1 thread free.0 >>= λ t2. ok (false, t2))
      else (occupy free.1 thread free.0 k v r.1 >>= λ t1. evict false t1 thread free.0 >>= λ last.
          ok (true, add_item_exp_time last.1 thread (home t k) last.0 exp_time))

  -- `set` with no `casLocks`
  unfoldable pub set : Table K V → ℕ → K → V → ℕ → Outcome (Bool × Table K V)
  set t thread k v exp_time = find_key t (own_locks t thread) k >>= λ r.
      if r.0
      then (overwrite t thread k v r.1 >>= λ t1.
          ok (true, add_item_exp_time t1 thread (home t k) (current r.1) exp_time))
      else (release t thread (home t k) r.1 >>= λ t1. ok (false, t1))

  -- `remove`: the element's index goes to the free list if it can be unlinked
  unfoldable pub remove : Table K V → ℕ → K → Outcome (Bool × Table K V)
  remove t thread k = remove_from_hash_key t thread k >>= λ removed.
      unlink_element removed.1 removed.0 >>= λ u.
      if u.0 then (push_free u.1 thread removed.0 >>= λ t'. ok (true, t')) else ok (true, u.1)
