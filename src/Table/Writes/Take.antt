-- ===== src/Table/Writes/Take.antt =====
-- How `insert` and `insertOrSet` of src/LFLRUHashTable.h take an element for a key that is not there.
use yamemcached.Base.{
  ℕ, ◌<◌, ◌≤◌, ◌≡◌, ◌≢◌, refl, ap, ◌∙◌, false, ok, ◌==◌, leb, if◌then◌else◌, arith, update,
}
use yamemcached.Table.State.{
  Keys, Table, Element, set_element, ThreadList, list_end_mark, max_lock_depth,
}
use yamemcached.Table.Probe.{Probe, home, write_lock}
use yamemcached.Table.Expiry.{add_item_exp_time}
use yamemcached.Table.Methods.{occupy, store_item}
use yamemcached.Table.Range.{slot_at, distance, slot_at-eq-distance}
use yamemcached.Table.Chain.{IsScan}
use yamemcached.Table.Lookup.{release-slots, element-same}
use yamemcached.Table.Touch.{SameItems}
use yamemcached.Table.Move.{CanMove, CanMove-links, link_head-CanMove}
use yamemcached.Table.Writes.Like.{Like, Like-released, scan_slots}

-- The slots after the unlocking: the last of the locked ones names the new element.
taken_slots :
    (n start depth idx : ℕ) (locks before : ℕ → ℕ)
    → start < n
    → depth < n
    → (j : ℕ) → j < n
    → (if leb (distance n start j) depth then locks (distance n start j) else before j) ≡ before j
    → (if leb (distance n start j) depth
        then update locks depth idx (distance n start j)
        else before j)
      ≡ (if j == slot_at n start depth then idx else before j)
taken_slots n start depth idx locks before at_start inside j h e =
    ground (arith, slot_at-eq-distance n start at_start depth j inside h, e)

-- `u` is `t` with the key and the value in element `idx`, which slot `pos` names.
pub record Inserted {K V : Type 0} (t u : Table K V) (pos idx : ℕ) (k : K) (v : V) : Type 0 where
  pub num_elements : u.num_elements ≡ t.num_elements
  pub hash_size : u.hash_size ≡ t.hash_size
  pub slots :
      (j : ℕ) → j < t.hash_size → u.element_links j ≡ (if j == pos then idx else t.element_links j)
  pub keys : (i : ℕ) → (u.elements i).key ≡ (if i == idx then k else (t.elements i).key)
  pub values : (i : ℕ) → (u.elements i).value ≡ (if i == idx then v else (t.elements i).value)

-- The head of the thread's free list is an element that no slot names and that is not the head of
-- the list of recent use, and it is not the last free one.
pub record CanTake {K V : Type 0} (t : Table K V) (thread idx : ℕ) : Type 0 where
  pub is_free : (t.lists thread).free_list_head ≡ idx
  pub in_range : idx < t.num_elements
  pub marks_free : t.num_elements ≤ list_end_mark
  pub more : (t.elements idx).links.right ≢ list_end_mark
  pub unused : (j : ℕ) → j < t.hash_size → t.element_links j ≢ idx
  pub head_in : (t.lists thread).head ≢ list_end_mark → (t.lists thread).head < t.num_elements
  pub apart : (t.lists thread).head ≢ idx

module _ {K V : Type 0} where
  -- The table with the item in an element, the rest shut.
  placed : Table K V → ℕ → K → V → Table K V
  placed t idx k v = set_element t idx (record (t.elements idx) { key = k; value = v })

  size_placed :
      (t : Table K V) (idx : ℕ) (k : K) (v : V) → (placed t idx k v).hash_size ≡ t.hash_size
  unfolding placed
  size_placed t idx k v = refl

  num_placed :
      (t : Table K V) (idx : ℕ) (k : K) (v : V) → (placed t idx k v).num_elements ≡ t.num_elements
  unfolding placed
  num_placed t idx k v = refl

  lists_placed : (t : Table K V) (idx : ℕ) (k : K) (v : V) → (placed t idx k v).lists ≡ t.lists
  unfolding placed
  lists_placed t idx k v = refl

  Inserted-placed :
      (t w u : Table K V) (thread pos idx : ℕ) (k : K) (v : V)
      → Like (placed t idx k v) w thread
      → ((j : ℕ)
          → j < t.hash_size
          → w.element_links j ≡ (if j == pos then idx else t.element_links j))
      → SameItems w u
      → Inserted t u pos idx k v
  unfolding placed
  Inserted-placed t w u thread pos idx k v l slots same = record {
    num_elements = same.num_elements ∙ l.num_elements;
    hash_size = same.hash_size ∙ l.hash_size;
    slots = λ j h. same.slots j (rw l.hash_size h) ∙ slots j h;
    keys = λ i. same.keys i ∙ ap (λ (es : ℕ → Element K V). (es i).key) l.elements ∙ ground arith;
    values =
        λ i. same.values i ∙ ap (λ (es : ℕ → Element K V). (es i).value) l.elements ∙ ground arith;
  }

module _ {K V : Type 0} ⦃keys : Keys K⦄ where
  store_item-lem :
      (t q : Table K V) (idx : ℕ) (k : K) (v : V)
      → q ≡ record t { element_links = q.element_links }
      → idx < t.num_elements
      → (stored : Table K V) × (store_item q idx k v ≡ ok stored)
        × (stored ≡ record (placed t idx k v) { element_links = stored.element_links })
        × (stored.element_links ≡ q.element_links)
  unfolding store_item placed
  store_item-lem t q idx k v same h = (
    set_element q idx (record (t.elements idx) { key = k; value = v }),
    rw (element-same t q idx same h) refl,
    ap (λ (z : Table K V). set_element z idx (record (t.elements idx) { key = k; value = v })) same,
    refl,
  )

  pub occupy-lem :
      (t : Table K V) (thread idx : ℕ) (k : K) (v : V) (q : Probe K V)
      → 0 < t.hash_size
      → IsScan t (home t k) q
      → idx < t.num_elements
      → ((t.lists thread).head ≢ list_end_mark → (t.lists thread).head < t.num_elements)
      → (t.lists thread).head ≢ idx
      → (u : Table K V) × (occupy t thread idx k v q ≡ ok u)
        × Inserted t u (slot_at t.hash_size (home t k) q.depth) idx k v
        × CanMove u thread idx
        × ((u.lists thread).free_list_head ≡ (t.lists thread).free_list_head)
  unfolding occupy write_lock
  occupy-lem t thread idx k v q size s h head_in apart =
      let at_start : home t k < t.hash_size = omega arith in
      let (stored, stores, like, links) = store_item-lem t q.table idx k v s.same h in
      let locks = update q.locks q.depth idx in
      let shut : leb max_lock_depth q.depth ≡ false = ground (arith, s.in_locks) in
      let (w, ran, same, slots) =
        release-slots t (placed t idx k v) thread (home t k) q.depth
          (record q { table = stored; locks = locks }) at_start s.inside s.in_locks like
          (size_placed t idx k v) s.idx_at
          (λ j h' far. ap (λ (f : ℕ → ℕ). f j) links ∙ s.slots j h' ∙ rw far) in
      let l = Like-released (placed t idx k v) w thread locks same in
      let head : (w.lists thread).head ≡ (t.lists thread).head =
        l.head ∙ ap (λ (ls : ℕ → ThreadList). (ls thread).head) (lists_placed t idx k v) in
      let num : w.num_elements ≡ t.num_elements = l.num_elements ∙ num_placed t idx k v in
      let (u, linked, items, first, free) =
        link_head-CanMove w thread idx (rw num h) (rw (head, num) head_in) (rw head apart) in
      (
        u,
        rw (shut, stores, ran, linked) refl,
        Inserted-placed t w u thread _ idx k v l
            (λ j h'.
              slots j h'
              ∙ taken_slots t.hash_size (home t k) q.depth idx q.locks t.element_links at_start
                  s.inside j h' (scan_slots t (home t k) q at_start s j h'))
            items,
        CanMove.at_head (rw (items.num_elements, num) h) first,
        free
            ∙ l.free
            ∙ ap (λ (ls : ℕ → ThreadList). (ls thread).free_list_head) (lists_placed t idx k v),
      )

  -- The expiry time is noted after the insertion.
  pub noted_insert :
      (t u : Table K V) (thread pos slot_pos idx exp_time : ℕ) (k : K) (v : V)
      → Inserted t u slot_pos idx k v
      → CanMove u thread idx
      → Inserted t (add_item_exp_time u thread pos idx exp_time) slot_pos idx k v
        × CanMove (add_item_exp_time u thread pos idx exp_time) thread idx
  unfolding add_item_exp_time
  noted_insert t u thread pos slot_pos idx exp_time k v o c = (
    record {
      num_elements = o.num_elements;
      hash_size = o.hash_size;
      slots = o.slots;
      keys = o.keys;
      values = o.values;
    },
    CanMove-links u _ thread idx refl (λ j. refl) (ground arith) c,
  )
