-- ===== src/Table/Writes/Set.antt =====
-- What `set` of src/LFLRUHashTable.h changes, and what `get` finds afterwards.
use yamemcached.Base.{
  ℕ, ◌<◌, ◌%◌, ◌≡◌, refl, ap, ◌∙◌, Bool, true, some, ok, ◌==◌, if◌then◌else◌, arith, subst, ==_refl,
}
use yamemcached.Table.State.{Keys, Table, Element, element, set_element}
use yamemcached.Table.Probe.{Probe, current, find_key, has_key, home, own_locks}
use yamemcached.Table.Expiry.{add_item_exp_time}
use yamemcached.Table.Methods.{get, set, overwrite, store_value}
use yamemcached.Table.Range.{slot_at, slot_at-lt}
use yamemcached.Table.Chain.{slot, IsScan, search-Stops}
use yamemcached.Table.Lookup.{Chain, element_of, release-slots, release-IsScan, element-same}
use yamemcached.Table.Touch.{SameItems, SameItems-trans}
use yamemcached.Table.Move.{CanMove, CanMove-links, touch-CanMove}
use yamemcached.Table.Agree.{Chain-same}
use yamemcached.Table.Writes.Like.{Like, Like-released, CanMove-Like, scan_slots}

-- `u` is `t` with the value of element `idx` replaced.
pub record Overwritten {K V : Type 0} (t u : Table K V) (idx : ℕ) (v : V) : Type 0 where
  pub num_elements : u.num_elements ≡ t.num_elements
  pub hash_size : u.hash_size ≡ t.hash_size
  pub slots : (j : ℕ) → j < t.hash_size → u.element_links j ≡ t.element_links j
  pub keys : (i : ℕ) → (u.elements i).key ≡ (t.elements i).key
  pub values : (i : ℕ) → (u.elements i).value ≡ (if i == idx then v else (t.elements i).value)

module _ {K V : Type 0} where
  -- The table whose value is replaced, the rest shut.
  valued : Table K V → ℕ → V → Table K V
  valued t idx v = set_element t idx (record (t.elements idx) { value = v })

  size_valued : (t : Table K V) (idx : ℕ) (v : V) → (valued t idx v).hash_size ≡ t.hash_size
  unfolding valued
  size_valued t idx v = refl

  Overwritten-valued :
      (t w u : Table K V) (thread idx : ℕ) (v : V)
      → Like (valued t idx v) w thread
      → ((j : ℕ) → j < t.hash_size → w.element_links j ≡ t.element_links j)
      → SameItems w u
      → Overwritten t u idx v
  unfolding valued
  Overwritten-valued t w u thread idx v l slots same = record {
    num_elements = same.num_elements ∙ l.num_elements;
    hash_size = same.hash_size ∙ l.hash_size;
    slots = λ j h. same.slots j (rw l.hash_size h) ∙ slots j h;
    keys = λ i. same.keys i ∙ ap (λ (es : ℕ → Element K V). (es i).key) l.elements ∙ ground arith;
    values =
        λ i. same.values i ∙ ap (λ (es : ℕ → Element K V). (es i).value) l.elements ∙ ground arith;
  }

  CanMove-valued :
      (t : Table K V) (thread idx : ℕ) (v : V)
      → CanMove t thread idx
      → CanMove (valued t idx v) thread idx
  unfolding valued
  CanMove-valued t thread idx v c = CanMove-links t _ thread idx refl (λ i. ground arith) refl c

  CanMove-range : (t : Table K V) (thread idx : ℕ) → CanMove t thread idx → idx < t.num_elements
  CanMove-range t thread idx (CanMove.at_head h first) = h
  CanMove-range t thread idx (CanMove.inside c head_in apart) = c.in_range

module _ {K V : Type 0} ⦃keys : Keys K⦄ where
  store_value-lem :
      (t q : Table K V) (idx : ℕ) (v : V)
      → q ≡ record t { element_links = q.element_links }
      → idx < t.num_elements
      → (stored : Table K V) × (store_value q idx v ≡ ok stored)
        × (stored ≡ record (valued t idx v) { element_links = stored.element_links })
        × (stored.element_links ≡ q.element_links)
  unfolding store_value valued
  store_value-lem t q idx v same h = (
    set_element q idx (record (t.elements idx) { value = v }),
    rw (element-same t q idx same h) refl,
    ap (λ (z : Table K V). set_element z idx (record (t.elements idx) { value = v })) same,
    refl,
  )

  overwrite-lem :
      (t : Table K V) (thread : ℕ) (k : K) (v : V) (q : Probe K V)
      → 0 < t.hash_size
      → IsScan t (home t k) q
      → CanMove t thread (current q)
      → (u : Table K V) × (overwrite t thread k v q ≡ ok u)
        × Overwritten t u (current q) v
        × CanMove u thread (current q)
  unfolding overwrite
  overwrite-lem t thread k v q size s c =
      let at_start : home t k < t.hash_size = omega arith in
      let idx = current q in
      let (stored, stores, like, links) =
        store_value-lem t q.table idx v s.same (CanMove-range t thread idx c) in
      let (w, ran, same, slots) =
        release-slots t (valued t idx v) thread (home t k) q.depth (record q { table = stored })
          at_start s.inside s.in_locks like (size_valued t idx v) s.idx_at
          (λ j h far. ap (λ (f : ℕ → ℕ). f j) links ∙ s.slots j h ∙ rw far) in
      let l = Like-released (valued t idx v) w thread q.locks same in
      let (u, touched, items, again) =
        touch-CanMove w thread idx
          (CanMove-Like (valued t idx v) w thread idx l (CanMove-valued t thread idx v c)) in
      (
        u,
        rw (stores, ran, touched) refl,
        Overwritten-valued t w u thread idx v l
            (λ j h. slots j h ∙ scan_slots t (home t k) q at_start s j h) items,
        again,
      )

  -- The last step: the expiry time is noted in the list of the thread.
  noted :
      (t u : Table K V) (thread pos idx exp_time i : ℕ) (v : V)
      → Overwritten t u i v
      → CanMove u thread i
      → Overwritten t (add_item_exp_time u thread pos idx exp_time) i v
        × CanMove (add_item_exp_time u thread pos idx exp_time) thread i
  unfolding add_item_exp_time
  noted t u thread pos idx exp_time i v o c = (
    record {
      num_elements = o.num_elements;
      hash_size = o.hash_size;
      slots = o.slots;
      keys = o.keys;
      values = o.values;
    },
    CanMove-links u _ thread i refl (λ j. refl) (ground arith) c,
  )

  -- If the chain of the key ends at its element, which can be moved, set replaces the value of the
  -- element and nothing else of the items.
  pub set-found :
      (t : Table K V) (thread : ℕ) (k : K) (v : V) (exp_time d : ℕ)
      → 0 < t.hash_size
      → Chain t k true d
      → CanMove t thread (element_of t k d)
      → (u : Table K V) × (set t thread k v exp_time ≡ ok (true, u))
        × Overwritten t u (element_of t k d) v
        × CanMove u thread (element_of t k d)
  unfolding set find_key
  set-found t thread k v exp_time d size chain c =
      let at_start : home t k < t.hash_size = omega arith in
      let (q, found, s, depth) =
        search-Stops t (home t k) (own_locks t thread) (has_key t k) true d at_start chain in
      let here : current q ≡ element_of t k d =
        s.kept q.depth (omega arith) ∙ ap (slot t (home t k)) depth in
      let (w, ran, o, again) = overwrite-lem t thread k v q size s (rw here c) in
      let last = add_item_exp_time w thread (home t k) (current q) exp_time in
      let (o', again') = noted t w thread (home t k) (current q) exp_time (current q) v o again in
      (
        last,
        rw (found, ran) refl,
        subst (λ (i : ℕ). Overwritten t last i v) here o',
        subst (λ (i : ℕ). CanMove last thread i) here again',
      )

  -- `get` where the element can be moved, which it can again afterwards.
  pub get-CanMove :
      (t : Table K V) (thread : ℕ) (k : K) (d : ℕ)
      → 0 < t.hash_size
      → Chain t k true d
      → CanMove t thread (element_of t k d)
      → (u : Table K V) × (get t thread k ≡ ok (some (t.elements (element_of t k d)).value, u))
        × SameItems t u
        × CanMove u thread (element_of t k d)
  unfolding get find_key
  get-CanMove t thread k d size chain c =
      let at_start : home t k < t.hash_size = omega arith in
      let (q, found, s, depth) =
        search-Stops t (home t k) (own_locks t thread) (has_key t k) true d at_start chain in
      let (w, ran, items, same) = release-IsScan t thread (home t k) q at_start s in
      let c' =
        CanMove-Like t w thread (element_of t k d) (Like-released t w thread q.locks same) c in
      let here : current q ≡ element_of t k d =
        s.kept q.depth (omega arith) ∙ ap (slot t (home t k)) depth in
      let (u, touched, items', again) = touch-CanMove w thread (element_of t k d) c' in
      let held : element q.table (element_of t k d) ≡ ok (t.elements (element_of t k d)) =
        element-same t q.table (element_of t k d) s.same (CanMove-range t thread _ c) in
      (u, rw (found, here, held, ran, touched), SameItems-trans t w u items items', again)

  Chain-Overwritten :
      (t u : Table K V) (k : K) (idx : ℕ) (v : V) (found : Bool) (d : ℕ)
      → 0 < t.hash_size
      → Overwritten t u idx v
      → Chain t k found d
      → Chain u k found d
  Chain-Overwritten t u k idx v found d size o c =
      Chain-same t u k found d size o.num_elements o.hash_size o.slots o.keys c

  element_of-same :
      (t u : Table K V) (k : K) (d : ℕ)
      → 0 < t.hash_size
      → d < t.hash_size
      → u.hash_size ≡ t.hash_size
      → ((j : ℕ) → j < t.hash_size → u.element_links j ≡ t.element_links j)
      → element_of u k d ≡ element_of t k d
  element_of-same t u k d some_slots inside size slots =
      ap (λ (n : ℕ). u.element_links (slot_at n (keys.hasher k % n) d)) size
      ∙ slots (slot_at t.hash_size (home t k) d)
          (slot_at-lt t.hash_size (home t k) (omega arith) d inside)

  -- If the chain of the key ends at its element, which stands at the head of a list or can be
  -- moved there, set returns true and replaces the value of that element and no other key, value
  -- or slot, and the next get returns the value.
  pub get-set :
      (t : Table K V) (thread : ℕ) (k : K) (v : V) (exp_time d : ℕ)
      → 0 < t.hash_size
      → Chain t k true d
      → CanMove t thread (element_of t k d)
      → (u w : Table K V) × (set t thread k v exp_time ≡ ok (true, u))
        × (get u thread k ≡ ok (some v, w))
        × SameItems u w
        × Overwritten t u (element_of t k d) v
  get-set t thread k v exp_time d size chain c =
      let (u, ran, o, again) = set-found t thread k v exp_time d size chain c in
      let here : element_of u k d ≡ element_of t k d =
        element_of-same t u k d size chain.inside o.hash_size o.slots in
      let (w, got, items, more) =
        get-CanMove u thread k d (rw o.hash_size size)
          (Chain-Overwritten t u k (element_of t k d) v true d size o chain) (rw here again) in
      let value : (u.elements (element_of u k d)).value ≡ v =
        ap (λ (i : ℕ). (u.elements i).value) here
        ∙ o.values (element_of t k d)
        ∙ rw (==_refl (element_of t k d)) refl in
      (u, w, ran, got ∙ ap (λ (x : V). ok (some x, w)) value, items, o)
