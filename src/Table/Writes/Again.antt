-- ===== src/Table/Writes/Again.antt =====
-- `insert` of src/LFLRUHashTable.h with a key that is there.
use yamemcached.Base.{ℕ, ◌<◌, ◌%◌, ◌≡◌, refl, ap, ◌∙◌, true, false, ok, arith, lt→ltb, ==_refl}
use yamemcached.Table.State.{Keys, Table, element, set_list}
use yamemcached.Table.Probe.{find_key, has_key, home, own_locks}
use yamemcached.Table.Recent.{pop_free}
use yamemcached.Table.Methods.{insert, insert_or_set}
use yamemcached.Table.Writes.Take.{CanTake}
use yamemcached.Table.Writes.Insert.{insert_or_set-Inserted}
use yamemcached.Table.Writes.Found.{Chain-Inserted, slot_last}
use yamemcached.Table.Chain.{slot, search-Stops}
use yamemcached.Table.Agree.{Chain-same}
use yamemcached.Table.Lookup.{Chain, element_of, release-IsScan}
use yamemcached.Table.Touch.{SameItems, SameItems-trans, set_list-SameItems}
use yamemcached.Table.Removals.Evicted.{push_free-SameItems, slot-same}

module _ {K V : Type 0} ⦃keys : Keys K⦄ where
  -- If the chain of the key ends at its element, and the head of the thread's free list is an
  -- element, insert returns false and changes no slot, key or value.
  pub insert-found :
      (t : Table K V) (thread : ℕ) (k : K) (v : V) (exp_time d : ℕ)
      → 0 < t.hash_size
      → Chain t k true d
      → (t.lists thread).free_list_head < t.num_elements
      → (u : Table K V) × (insert t thread k v exp_time ≡ ok (false, u)) × SameItems t u
  unfolding insert pop_free element find_key
  insert-found t thread k v exp_time d size chain free =
      let idx = (t.lists thread).free_list_head in
      let t0 =
        set_list t thread
          (record (t.lists thread) { free_list_head = (t.elements idx).links.right }) in
      let s0 : SameItems t t0 = set_list-SameItems t thread _ in
      let (q, found, s, depth) =
        search-Stops t0 (home t0 k) (own_locks t0 thread) (has_key t0 k) true d (omega arith)
          (Chain-same t t0 k true d size refl refl (λ j h. refl) (λ i. refl) chain) in
      let (w, ran, items, _) = release-IsScan t0 thread (home t0 k) q (omega arith) s in
      let (u, pushed, same, _) = push_free-SameItems w thread idx (rw items.num_elements free) in
      (
        u,
        rw (lt→ltb _ _ free, found, ran, pushed) refl,
        SameItems-trans t t0 u s0 (SameItems-trans t0 w u items same),
      )

  -- insertOrSet puts the item in where insert-missing holds, and insert then finds it there.
  pub insert-insert_or_set :
      (t : Table K V) (thread idx : ℕ) (k : K) (v : V) (exp_time d : ℕ)
      → keys.same k k ≡ true
      → 0 < t.hash_size
      → Chain t k false d
      → CanTake t thread idx
      → (t.elements idx).links.right < t.num_elements
      → (t1 : Table K V) × (u : Table K V) × (insert_or_set t thread k v exp_time ≡ ok (true, t1))
        × (insert t1 thread k v exp_time ≡ ok (false, u))
        × Chain u k true d
        × ((u.elements (element_of u k d)).value ≡ v)
  insert-insert_or_set t thread idx k v exp_time d reflexive size chain take next =
      let (t1, set, o, free) = insert_or_set-Inserted t thread idx k v exp_time d size chain take in
      let there = Chain-Inserted t t1 thread idx k v d reflexive size chain take o in
      let (u, again, same) =
        insert-found t1 thread k v exp_time d (rw o.hash_size size) there
          (rw (free, o.num_elements) next) in
      let size1 : 0 < t1.hash_size = rw o.hash_size size in
      let at : element_of u k d ≡ idx =
        ap (λ (n : ℕ). slot u (keys.hasher k % n) d) same.hash_size
        ∙ slot-same t1 u (home t1 k) d same (omega arith) there.inside
        ∙ slot_last t t1 idx k v d size chain.inside o in
      (
        t1,
        u,
        set,
        again,
        Chain-same t1 u k true d size1 same.num_elements same.hash_size same.slots same.keys there,
        ap (λ (i : ℕ). (u.elements i).value) at
            ∙ same.values idx
            ∙ o.values idx
            ∙ rw (==_refl idx) refl,
      )
