-- ===== src/Table/Writes/Insert.antt =====
-- What `insert` and `insertOrSet` of src/LFLRUHashTable.h do with a key that is not there, and what
-- `get` finds afterwards.
use yamemcached.Base.{
  ℕ, ◌<◌, ◌≡◌, ◌≢◌, refl, sym, ◌∙◌, Bool, true, false, ok, ◌==◌, arith, subst, ==_refl, ==_of_ne,
  lt→ltb,
}
use yamemcached.Table.State.{Keys, Table, element, set_list, list_end_mark}
use yamemcached.Table.Probe.{Probe, find_key, has_key, home, own_locks}
use yamemcached.Table.Recent.{pop_free}
use yamemcached.Table.Expiry.{add_item_exp_time}
use yamemcached.Table.Methods.{insert, insert_or_set, occupy, evict}
use yamemcached.Table.Range.{slot_at}
use yamemcached.Table.Chain.{search-Stops}
use yamemcached.Table.Lookup.{Chain}
use yamemcached.Table.Move.{CanMove}
use yamemcached.Table.Agree.{Chain-same}
use yamemcached.Table.Writes.Take.{Inserted, CanTake, occupy-lem, noted_insert}

module _ {K V : Type 0} ⦃keys : Keys K⦄ where
  -- The table without the head of the thread's free list.
  popped : Table K V → ℕ → ℕ → Table K V
  popped t thread idx =
      set_list t thread (record (t.lists thread) { free_list_head = (t.elements idx).links.right })

  pop_free-lem :
      (t : Table K V) (thread idx : ℕ)
      → CanTake t thread idx
      → pop_free t thread ≡ ok (idx, popped t thread idx)
  unfolding pop_free element popped
  pop_free-lem t thread idx c = rw (c.is_free, lt→ltb _ _ c.in_range) refl

  Chain-popped :
      (t : Table K V) (thread idx : ℕ) (k : K) (found : Bool) (d : ℕ)
      → 0 < t.hash_size
      → Chain t k found d
      → Chain (popped t thread idx) k found d
  unfolding popped
  Chain-popped t thread idx k found d size c =
      Chain-same t _ k found d size refl refl (λ j h. refl) (λ i. refl) c

  popped_head :
      (t : Table K V) (thread idx : ℕ)
      → CanTake t thread idx
      → ((popped t thread idx).lists thread).head ≢ list_end_mark
      → ((popped t thread idx).lists thread).head < t.num_elements
  unfolding popped
  popped_head t thread idx c = rw (==_refl thread) c.head_in

  popped_apart :
      (t : Table K V) (thread idx : ℕ)
      → CanTake t thread idx
      → ((popped t thread idx).lists thread).head ≢ idx
  unfolding popped
  popped_apart t thread idx c = rw (==_refl thread) c.apart

  popped_free :
      (t : Table K V) (thread idx : ℕ)
      → ((popped t thread idx).lists thread).free_list_head ≡ (t.elements idx).links.right
  unfolding popped
  popped_free t thread idx = ground arith

  popped_more :
      (t : Table K V) (thread idx : ℕ)
      → CanTake t thread idx
      → ((popped t thread idx).lists thread).free_list_head ≢ list_end_mark
  unfolding popped
  popped_more t thread idx c = rw (==_refl thread) c.more

  Inserted-popped :
      (t u : Table K V) (thread pos idx : ℕ) (k : K) (v : V)
      → Inserted (popped t thread idx) u pos idx k v
      → Inserted t u pos idx k v
  unfolding popped
  Inserted-popped t u thread pos idx k v o = record {
    num_elements = o.num_elements;
    hash_size = o.hash_size;
    slots = o.slots;
    keys = o.keys;
    values = o.values;
  }

  noted_free :
      (u : Table K V) (thread pos idx exp_time : ℕ)
      → ((add_item_exp_time u thread pos idx exp_time).lists thread).free_list_head
        ≡ (u.lists thread).free_list_head
  unfolding add_item_exp_time
  noted_free u thread pos idx exp_time = ground arith

  insert_lem :
      (t : Table K V) (thread idx : ℕ) (k : K) (v : V) (exp_time d : ℕ)
      → 0 < t.hash_size
      → Chain t k false d
      → CanTake t thread idx
      → (q : Probe K V) × (u : Table K V) × (pop_free t thread ≡ ok (idx, popped t thread idx))
        × (find_key (popped t thread idx) (own_locks (popped t thread idx) thread) k
            ≡ ok (false, q))
        × (occupy (popped t thread idx) thread idx k v q ≡ ok u)
        × Inserted t u (slot_at t.hash_size (home t k) d) idx k v
        × CanMove u thread idx
        × (((u.lists thread).free_list_head == list_end_mark) ≡ false)
        × ((u.lists thread).free_list_head ≡ (t.elements idx).links.right)
  unfolding find_key popped
  insert_lem t thread idx k v exp_time d size chain c =
      let t0 = popped t thread idx in
      let at : home t k < t.hash_size = omega arith in
      let (q, found, s, depth) =
        search-Stops t0 (home t0 k) (own_locks t0 thread) (has_key t0 k) false d at
          (Chain-popped t thread idx k false d size chain) in
      let (u, ran, o, again, free) =
        occupy-lem t0 thread idx k v q size s c.in_range (popped_head t thread idx c)
          (popped_apart t thread idx c) in
      (
        q,
        u,
        pop_free-lem t thread idx c,
        found,
        ran,
        subst (λ (i : ℕ). Inserted t u (slot_at t.hash_size (home t k) i) idx k v) depth
            (Inserted-popped t u thread _ idx k v o),
        again,
        ==_of_ne _ _ (λ e. popped_more t thread idx c (sym free ∙ e)),
        free ∙ popped_free t thread idx,
      )

  -- If the chain of the key ends at a free slot and the thread has more than one free element,
  -- insert puts the item in the first of them and names it in that slot, and changes no other slot,
  -- key or value.
  pub insert-missing :
      (t : Table K V) (thread idx : ℕ) (k : K) (v : V) (exp_time d : ℕ)
      → 0 < t.hash_size
      → Chain t k false d
      → CanTake t thread idx
      → (u : Table K V) × (insert t thread k v exp_time ≡ ok (true, u))
        × Inserted t u (slot_at t.hash_size (home t k) d) idx k v
        × CanMove u thread idx
  unfolding insert evict
  insert-missing t thread idx k v exp_time d size chain c =
      let (q, u, popping, found, ran, o, again, free, _) =
        insert_lem t thread idx k v exp_time d size chain c in
      let (o', again') = noted_insert t u thread (home t k) _ idx exp_time k v o again in
      (
        add_item_exp_time u thread (home t k) idx exp_time,
        rw (popping, found, ran, free) refl,
        o',
        again',
      )

  -- Where the chain of the key ends at a free slot and the thread has more than one free element,
  -- no slot of which names the first, insertOrSet and insert return true and leave the same
  -- table.
  pub insert_or_set-missing :
      (t : Table K V) (thread idx : ℕ) (k : K) (v : V) (exp_time d : ℕ)
      → 0 < t.hash_size
      → Chain t k false d
      → CanTake t thread idx
      → (u : Table K V) × (insert t thread k v exp_time ≡ ok (true, u))
        × (insert_or_set t thread k v exp_time ≡ ok (true, u))
  unfolding insert insert_or_set evict
  insert_or_set-missing t thread idx k v exp_time d size chain c =
      let (q, u, popping, found, ran, o, again, free, _) =
        insert_lem t thread idx k v exp_time d size chain c in
      (
        add_item_exp_time u thread (home t k) idx exp_time,
        rw (popping, found, ran, free) refl,
        rw (popping, found, ran, free) refl,
      )

  -- What insertOrSet leaves where insert-missing holds, with the next free element at the head of
  -- the free list.
  pub insert_or_set-Inserted :
      (t : Table K V) (thread idx : ℕ) (k : K) (v : V) (exp_time d : ℕ)
      → 0 < t.hash_size
      → Chain t k false d
      → CanTake t thread idx
      → (u : Table K V) × (insert_or_set t thread k v exp_time ≡ ok (true, u))
        × Inserted t u (slot_at t.hash_size (home t k) d) idx k v
        × ((u.lists thread).free_list_head ≡ (t.elements idx).links.right)
  unfolding insert_or_set evict
  insert_or_set-Inserted t thread idx k v exp_time d size chain c =
      let (q, u, popping, found, ran, o, again, free, next) =
        insert_lem t thread idx k v exp_time d size chain c in
      let (o', _) = noted_insert t u thread (home t k) _ idx exp_time k v o again in
      (
        add_item_exp_time u thread (home t k) idx exp_time,
        rw (popping, found, ran, free) refl,
        o',
        noted_free u thread (home t k) idx exp_time ∙ next,
      )
