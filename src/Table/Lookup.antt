-- ===== src/Table/Lookup.antt =====
-- What `get`, `set` and `insert` of src/LFLRUHashTable.h find and change, by the chain of the key.
use yamemcached.Base.{
  ℕ, ◌<◌, ◌≡◌, ◌≢◌, refl, ap, sym, ◌∙◌, Bool, true, false, none, some, ok, leb, if◌then◌else◌,
  arith, lt→ltb, ◌&&◌, subst, ==_refl, Bool-cases, inl, inr,
}
use yamemcached.Table.State.{Keys, Table, element, max_lock_depth, list_end_mark}
use yamemcached.Table.Probe.{
  Probe, current, find_key, has_key, home, own_locks, keep_locks, release,
}
use yamemcached.Table.Slots.{unlock_elements_hash}
use yamemcached.Table.Methods.{get}
use yamemcached.Table.Range.{slot_at, distance, slot_at-distance}
use yamemcached.Table.Chain.{slot, IsScan, Stops, search-Stops}
use yamemcached.Table.Release.{unlock-Stored}
use yamemcached.Table.Touch.{SameItems, SameItems-trans, CanUnlink, touch-SameItems}

-- The slots after the unlocking, outside the range as they were before the search.
slots_of :
    (locks : ℕ → ℕ) (x depth : ℕ) {now then_ before : ℕ}
    → now ≡ (if leb 0 x && leb x depth then locks x else then_)
    → (leb x depth ≡ false → then_ ≡ before)
    → now ≡ (if leb x depth then locks x else before)
slots_of locks x depth e far = elim (Bool-cases (leb x depth)) [
  | inl near ↦ ground arith
  | inr away ↦ ground (arith, far away)
]

module _ {K V : Type 0} ⦃keys : Keys K⦄ where
  -- The chain of `k` ends at depth `d`: with the key, or with a free slot.
  abbrev pub Chain : Table K V → K → Bool → ℕ → Type 0
  Chain t k found d = Stops t (home t k) (has_key t k) found d

  -- `release` leaves a table like `u`, whose slots were those of `t` but for the locked range.
  pub release-slots :
      (t u : Table K V) (thread start depth : ℕ) (p : Probe K V)
      → start < t.hash_size
      → depth < t.hash_size
      → depth < max_lock_depth
      → p.table ≡ record u { element_links = p.table.element_links }
      → u.hash_size ≡ t.hash_size
      → p.idx ≡ slot_at t.hash_size start depth
      → ((j : ℕ)
          → j < t.hash_size
          → leb (distance t.hash_size start j) depth ≡ false
          → p.table.element_links j ≡ t.element_links j)
      → (w : Table K V) × (release t thread start p ≡ ok w)
        × (w ≡ keep_locks (record u { element_links = w.element_links }) thread p.locks)
        × ((j : ℕ)
            → j < t.hash_size
            → w.element_links j ≡ (
                if leb (distance t.hash_size start j) depth
                then p.locks (distance t.hash_size start j)
                else t.element_links j))
  unfolding release
  release-slots t u thread start depth p at_start inside in_locks same size at others =
      let size' : p.table.hash_size ≡ t.hash_size =
        ap (λ (z : Table K V). z.hash_size) same ∙ size in
      let (w, ran, stored) =
        unlock-Stored p.table start depth p.locks (rw size' at_start) (rw size' inside) in_locks in
      let ran' : unlock_elements_hash p.table start p.idx p.locks ≡ ok w =
        ap (λ (n : ℕ). unlock_elements_hash p.table start n p.locks)
          (at ∙ ap (λ (n : ℕ). slot_at n start depth) (sym size'))
        ∙ ran in
      (
        keep_locks w thread p.locks,
        rw ran',
        ap (λ (z : Table K V). keep_locks z thread p.locks)
            (stored.same
              ∙ ap (λ (z : Table K V). record z { element_links = w.element_links }) same),
        λ j h.
            slots_of p.locks (distance t.hash_size start j) depth
              (rw size' at (stored.slots j (rw size' h))) (others j h),
      )

  -- A search that ended unlocks all that it locked, and the slots are what they were.
  pub release-IsScan :
      (t : Table K V) (thread start : ℕ) (q : Probe K V)
      → start < t.hash_size
      → IsScan t start q
      → (w : Table K V) × (release t thread start q ≡ ok w)
        × SameItems t w
        × (w ≡ keep_locks (record t { element_links = w.element_links }) thread q.locks)
  release-IsScan t thread start q at_start s =
      let (w, ran, same, slots) =
        release-slots t t thread start q.depth q at_start s.inside s.in_locks s.same refl s.idx_at
          (λ j h far. s.slots j h ∙ rw far) in
      (
        w,
        ran,
        record {
          num_elements = ap (λ (z : Table K V). z.num_elements) same;
          hash_size = ap (λ (z : Table K V). z.hash_size) same;
          slots = λ j h. ground (
            arith,
            slots j h,
            s.kept (distance t.hash_size start j),
            slot_at-distance t.hash_size start at_start j,
          );
          keys = λ i. ap (λ (z : Table K V). (z.elements i).key) same;
          values = λ i. ap (λ (z : Table K V). (z.elements i).value) same;
        },
        same,
      )

  -- The element of `k`, where its chain ends at depth `d`.
  abbrev pub element_of : Table K V → K → ℕ → ℕ
  element_of t k d = slot t (home t k) d

  -- The element can be moved to the head of the thread's list.
  pub record CanTouch (t : Table K V) (thread idx : ℕ) : Type 0 where
    pub unlink : CanUnlink t idx
    pub head_in : (t.lists thread).head ≢ list_end_mark → (t.lists thread).head < t.num_elements

  CanTouch-released :
      (t w : Table K V) (thread idx : ℕ) (locks : ℕ → ℕ)
      → w ≡ keep_locks (record t { element_links = w.element_links }) thread locks
      → CanTouch t thread idx
      → CanTouch w thread idx
  CanTouch-released t w thread idx locks same c =
      subst (λ (z : Table K V). CanTouch z thread idx) (sym same)
        (record {
          unlink = record {
            in_range = c.unlink.in_range;
            marks_free = c.unlink.marks_free;
            left_in = c.unlink.left_in;
            right_in = c.unlink.right_in;
            apart = c.unlink.apart;
            left_back = c.unlink.left_back;
            right_back = c.unlink.right_back;
          };
          head_in = rw (==_refl thread) c.head_in;
        })

  -- A table that differs in the slots alone has the elements.
  pub element-same :
      (t u : Table K V) (idx : ℕ)
      → u ≡ record t { element_links = u.element_links }
      → idx < t.num_elements
      → element u idx ≡ ok (t.elements idx)
  unfolding element
  element-same t u idx same h = rw (same, lt→ltb _ _ h) refl

  -- If the table is not empty of slots, the chain of the key ends at its element within the lock
  -- depth and with no slot locked, and the element and the head of the thread's list are linked
  -- as CanTouch says, get returns the value and changes no slot, key or value.
  pub get-found :
      (t : Table K V) (thread : ℕ) (k : K) (d : ℕ)
      → 0 < t.hash_size
      → Chain t k true d
      → CanTouch t thread (element_of t k d)
      → (u : Table K V) × (get t thread k ≡ ok (some (t.elements (element_of t k d)).value, u))
        × SameItems t u
  unfolding get find_key
  get-found t thread k d size chain c =
      let at_start : home t k < t.hash_size = omega arith in
      let (q, found, s, depth) =
        search-Stops t (home t k) (own_locks t thread) (has_key t k) true d at_start chain in
      let (w, ran, items, same) = release-IsScan t thread (home t k) q at_start s in
      let c' = CanTouch-released t w thread (element_of t k d) q.locks same c in
      let here : current q ≡ element_of t k d =
        s.kept q.depth (omega arith) ∙ ap (slot t (home t k)) depth in
      let (u, touched, items') = touch-SameItems w thread (element_of t k d) c'.unlink c'.head_in in
      let held : element q.table (element_of t k d) ≡ ok (t.elements (element_of t k d)) =
        element-same t q.table (element_of t k d) s.same c.unlink.in_range in
      (u, rw (found, here, held, ran, touched), SameItems-trans t w u items items')

  -- If the chain of the key ends at a free slot within the lock depth and no slot of it is
  -- locked, get finds nothing and changes no slot, key or value.
  pub get-missing :
      (t : Table K V) (thread : ℕ) (k : K) (d : ℕ)
      → 0 < t.hash_size
      → Chain t k false d
      → (u : Table K V) × (get t thread k ≡ ok (none, u)) × SameItems t u
  unfolding get find_key
  get-missing t thread k d size chain =
      let at_start : home t k < t.hash_size = omega arith in
      let (q, found, s, depth) =
        search-Stops t (home t k) (own_locks t thread) (has_key t k) false d at_start chain in
      let (w, ran, items, same) = release-IsScan t thread (home t k) q at_start s in
      (w, rw (found, ran), items)
