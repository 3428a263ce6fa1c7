-- ===== src/Table/Faults.antt =====
-- Where src/LFLRUHashTable.h does not do what its callers ask for: the count of the items, and the
-- compare-and-set.
use yamemcached.Base.{
  ℕ, zero, suc, ◌+◌, ◌-◌, ◌%◌, ◌^◌, ◌≤◌, ◌<◌, ◌≡◌, ◌≢◌, refl, ap, ◌∙◌, ok, fault, true, some, subst,
  sym, ==_of_ne, le→leb, arith,
}
use yamemcached.Table.State.{Keys, Table, hash_lock_mark, max_lock_depth}
use yamemcached.Table.Locked.{read_lock, set_locked}
use yamemcached.Table.State.{element}
use yamemcached.Table.Probe.{current, find_key, has_key, home}
use yamemcached.Table.Recent.{touch}
use yamemcached.Table.Locked.{get_locked}
use yamemcached.Table.Chain.{slot, search-Stops}
use yamemcached.Table.Lookup.{Chain, CanTouch, element_of, element-same}
use yamemcached.Table.Touch.{touch-SameItems}
use yamemcached.Table.Walk.{process_from, process_hash}

module _ {K V : Type 0} where
  process_from-count :
      (slots pos : ℕ) (t : Table K V) (n : ℕ)
      → ((j : ℕ) → j < pos + slots → t.element_links j ≢ hash_lock_mark)
      → process_from (λ _ m. m + 1) slots pos t n ≡ ok (n + slots)
  unfolding process_from
  process_from-count zero pos t n free = ap (λ (m : ℕ). ok m) (omega arith)
  process_from-count (suc slots) pos t n free = rw (==_of_ne _ _ (free pos (omega arith))) (
      process_from-count slots (pos + 1) t (n + 1) (λ j h. free j (omega arith))
      ∙ ap (λ (m : ℕ). ok m) (omega arith))

  -- If no slot is locked, counting with processHash gives the number of slots, whatever items
  -- there are.
  pub process_hash-count :
      (t : Table K V)
      → ((j : ℕ) → j < t.hash_size → t.element_links j ≢ hash_lock_mark)
      → process_hash (λ _ m. m + 1) t 0 ≡ ok t.hash_size
  unfolding process_hash
  process_hash-count t free =
      process_from-count t.hash_size 0 t 0 (λ j h. free j (omega arith))
      ∙ ap (λ (m : ℕ). ok m) (omega arith)

  -- In a table with at least as many slots as an array of locks has entries, set with the locks
  -- of a compare-and-set and the range 0 to 0 reads out of the array.
  pub set_locked-faults :
      ⦃keys : Keys K⦄ (t : Table K V) (thread : ℕ) (v : V) (exp_time : ℕ) (cas_locks : ℕ → ℕ)
      → max_lock_depth ≤ t.hash_size
      → t.hash_size < 2 ^ 64
      → set_locked t thread v exp_time cas_locks 0 0 ≡ fault
  unfolding set_locked read_lock
  set_locked-faults t thread v exp_time cas_locks h h' =
      let depth : (t.hash_size + 2 ^ 64 - 0 + 0) % 2 ^ 64 ≡ t.hash_size = omega arith in
      rw (depth, le→leb _ _ h) refl

  touch-same :
      ⦃keys : Keys K⦄ (t q : Table K V) (thread idx : ℕ)
      → q ≡ record t { element_links = q.element_links }
      → CanTouch t thread idx
      → (u : Table K V) × (touch q thread idx ≡ ok u) × (u.hash_size ≡ t.hash_size)
  touch-same t q thread idx same c =
      let c' : CanTouch q thread idx =
        subst (λ (z : Table K V). CanTouch z thread idx) (sym same)
          (record {
            unlink = record {
              in_range = c.unlink.in_range;
              marks_free = c.unlink.marks_free;
              left_in = c.unlink.left_in;
              right_in = c.unlink.right_in;
              apart = c.unlink.apart;
              left_back = c.unlink.left_back;
              right_back = c.unlink.right_back;
            };
            head_in = c.head_in;
          }) in
      let (u, touched, items) = touch-SameItems q thread idx c'.unlink c'.head_in in
      (u, touched, items.hash_size ∙ ap (λ (z : Table K V). z.hash_size) same)

  -- get with locks of the caller's, of a key that is there.
  pub get_locked-found :
      ⦃keys : Keys K⦄ (t : Table K V) (thread : ℕ) (k : K) (d : ℕ) (cas_locks : ℕ → ℕ)
      → 0 < t.hash_size
      → Chain t k true d
      → CanTouch t thread (element_of t k d)
      → (u : Table K V) × (locks : ℕ → ℕ) × (get_locked t thread k cas_locks
          ≡ ok (some (t.elements (element_of t k d)).value, u, locks))
        × (u.hash_size ≡ t.hash_size)
  unfolding get_locked find_key
  get_locked-found t thread k d cas_locks size chain c =
      let (q, found, s, depth) =
        search-Stops t (home t k) cas_locks (has_key t k) true d (omega arith) chain in
      let here : current q ≡ element_of t k d =
        s.kept q.depth (omega arith) ∙ ap (slot t (home t k)) depth in
      let held : element q.table (element_of t k d) ≡ ok (t.elements (element_of t k d)) =
        element-same t q.table (element_of t k d) s.same c.unlink.in_range in
      let (u, touched, num) = touch-same t q.table thread (element_of t k d) s.same c in
      (u, q.locks, rw (found, here, held, touched) refl, num)
