-- ===== src/Table/Touch.antt =====
-- Moving a used element of src/LFLRUHashTable.h to the head of a list: it ends, and it changes no
-- slot, no key and no value.
use yamemcached.Base.{
  ℕ, ◌≤◌, ◌<◌, ◌≡◌, ◌≢◌, refl, ap, ◌∙◌, ◌+◌, Bool, true, false, ok, ◌==◌, if◌then◌else◌, arith,
  lt→ltb, Bool-cases, ◌⊎◌, inl, inr, ==_of_false,
}
use yamemcached.Table.State.{
  Links, ThreadList, Table, element, with_links, set_list, list_end_mark, access_lock_mark,
}
use yamemcached.Table.Recent.{both, unlink_element, join_siblings, store_links, link_head, touch}

-- The slots, the keys and the values of `t` and `u` are the same.
pub record SameItems {K V : Type 0} (t u : Table K V) : Type 0 where
  pub num_elements : u.num_elements ≡ t.num_elements
  pub hash_size : u.hash_size ≡ t.hash_size
  pub slots : (j : ℕ) → j < t.hash_size → u.element_links j ≡ t.element_links j
  pub keys : (i : ℕ) → (u.elements i).key ≡ (t.elements i).key
  pub values : (i : ℕ) → (u.elements i).value ≡ (t.elements i).value

module _ {K V : Type 0} where
  pub SameItems-refl : (t : Table K V) → SameItems t t
  SameItems-refl t = record {
    num_elements = refl;
    hash_size = refl;
    slots = λ j h. refl;
    keys = λ i. refl;
    values = λ i. refl;
  }

  pub SameItems-trans : (t u w : Table K V) → SameItems t u → SameItems u w → SameItems t w
  SameItems-trans t u w p q = record {
    num_elements = q.num_elements ∙ p.num_elements;
    hash_size = q.hash_size ∙ p.hash_size;
    slots = λ j h. q.slots j (rw p.hash_size h) ∙ p.slots j h;
    keys = λ i. q.keys i ∙ p.keys i;
    values = λ i. q.values i ∙ p.values i;
  }

  pub store_links-SameItems :
      (t : Table K V) (idx : ℕ) (l : Links)
      → idx < t.num_elements
      → (store_links t idx l ≡ ok (with_links t idx (t.elements idx) l))
        × SameItems t (with_links t idx (t.elements idx) l)
  unfolding store_links element
  store_links-SameItems t idx l h = (
    ground arith,
    record {
      num_elements = refl;
      hash_size = refl;
      slots = λ j k. refl;
      keys = λ i. ground arith;
      values = λ i. ground arith;
    },
  )

  pub set_list-SameItems : (t : Table K V) (thread : ℕ) (l : _) → SameItems t (set_list t thread l)
  set_list-SameItems t thread l = record {
    num_elements = refl;
    hash_size = refl;
    slots = λ j k. refl;
    keys = λ i. refl;
    values = λ i. refl;
  }

  -- `idx` stands in a list whose links agree on both sides of it, or at an end of one.
  pub record CanUnlink (t : Table K V) (idx : ℕ) : Type 0 where
    pub in_range : idx < t.num_elements
    pub marks_free : t.num_elements ≤ list_end_mark
    pub left_in :
        (t.elements idx).links.left ≢ list_end_mark → (t.elements idx).links.left < t.num_elements
    pub right_in :
        (t.elements idx).links.right ≢ list_end_mark → (t.elements idx).links.right < t.num_elements
    pub apart :
        (t.elements idx).links.left ≢ list_end_mark
        → ((t.elements idx).links.left ≢ (t.elements idx).links.right)
          × ((t.elements idx).links.left ≢ idx)
          × ((t.elements idx).links.right ≢ idx)
    pub left_back :
        (t.elements idx).links.left ≢ list_end_mark
        → ((t.elements (t.elements idx).links.left).links.right ≡ idx)
          × ((t.elements (t.elements idx).links.left).links.left ≢ access_lock_mark)
    pub right_back :
        (t.elements idx).links.right ≢ list_end_mark
        → ((t.elements (t.elements idx).links.right).links.left ≡ idx)
          × ((t.elements (t.elements idx).links.right).links.right ≢ access_lock_mark)

  join_siblings-SameItems :
      (t : Table K V) (idx : ℕ) (target l r : Links)
      → idx < t.num_elements
      → target.left < t.num_elements
      → target.right < t.num_elements
      → (u : Table K V) × (join_siblings t idx target l r ≡ ok (true, u))
        × SameItems t u
        × (u.lists ≡ t.lists)
  unfolding join_siblings
  join_siblings-SameItems t idx target l r hi hl hr =
      let (e1, s1) = store_links-SameItems t target.left (record l { right = target.right }) hl in
      let t1 =
        with_links t target.left (t.elements target.left) (record l { right = target.right }) in
      let (e2, s2) = store_links-SameItems t1 target.right (record r { left = target.left }) hr in
      let t2 =
        with_links t1 target.right (t1.elements target.right) (record r { left = target.left }) in
      let (e3, s3) =
        store_links-SameItems t2 idx (record { left = list_end_mark; right = list_end_mark }) hi in
      (
        with_links t2 idx (t2.elements idx)
            (record { left = list_end_mark; right = list_end_mark }),
        rw (e1, e2, e3),
        SameItems-trans t t2 _ (SameItems-trans t t1 t2 s1 s2) s3,
        refl,
      )

  -- Between two siblings, all that is left to look at is whether one of them is an end.
  pub unlink_inner :
      (t : Table K V) (idx : ℕ)
      → CanUnlink t idx
      → (t.elements idx).links.left ≢ list_end_mark
      → (t.elements idx).links.right ≢ list_end_mark
      → let target = (t.elements idx).links in
        let l = (t.elements target.left).links in
        let r = (t.elements target.right).links in
        unlink_element t idx ≡ (
          if l.left == list_end_mark
          then ok (false, t)
          else if r.right == list_end_mark
          then ok (false, t)
          else join_siblings
              (with_links t idx (t.elements idx) (both access_lock_mark))
              idx
              target
              l
              r)
  unfolding unlink_element element
  unlink_inner t idx c hl hr =
      ground (arith, c.left_in hl, c.right_in hr, c.apart hl, c.left_back hl, c.right_back hr)

  -- `unlinkElement` gives up, with the table as it was, or moves the element out of its list.
  pub unlink_element-cases :
      (t : Table K V) (idx : ℕ)
      → CanUnlink t idx
      → (unlink_element t idx ≡ ok (false, t))
        ⊎ ((u : Table K V) × (unlink_element t idx ≡ ok (true, u))
            × SameItems t u
            × (u.lists ≡ t.lists))
  unfolding unlink_element element
  unlink_element-cases t idx c = elim (Bool-cases ((t.elements idx).links.left == list_end_mark)) [
    | inl at_head ↦ inl (rw (lt→ltb _ _ c.in_range, at_head) refl)
    | inr inner ↦ elim (Bool-cases ((t.elements idx).links.right == list_end_mark)) [
      | inl at_tail ↦ inl (rw (lt→ltb _ _ c.in_range, inner, at_tail) refl)
      | inr inner' ↦ inner_cases (==_of_false _ _ inner) (==_of_false _ _ inner')
    ]
  ]
    where
      inner_cases :
          (t.elements idx).links.left ≢ list_end_mark
          → (t.elements idx).links.right ≢ list_end_mark
          → (unlink_element t idx ≡ ok (false, t))
            ⊎ ((u : Table K V) × (unlink_element t idx ≡ ok (true, u))
                × SameItems t u
                × (u.lists ≡ t.lists))
      inner_cases hl hr =
          let target = (t.elements idx).links in
          let l = (t.elements target.left).links in
          let r = (t.elements target.right).links in
          let locked = with_links t idx (t.elements idx) (both access_lock_mark) in
          let (_, s0) = store_links-SameItems t idx (both access_lock_mark) c.in_range in
          let (u, joined, s1, lists) =
            join_siblings-SameItems locked idx target l r c.in_range (c.left_in hl)
              (c.right_in hr) in
          elim (Bool-cases (l.left == list_end_mark)) [
            | inl first ↦ inl (unlink_inner t idx c hl hr ∙ rw first refl)
            | inr later ↦ elim (Bool-cases (r.right == list_end_mark)) [
              | inl last ↦ inl (unlink_inner t idx c hl hr ∙ rw (later, last) refl)
              | inr before ↦ inr (
                u,
                unlink_inner t idx c hl hr ∙ rw (later, before, joined) refl,
                SameItems-trans t locked u s0 s1,
                lists,
              )
            ]
          ]

  -- `unlinkElement` ends, and changes no item.
  pub unlink_element-SameItems :
      (t : Table K V) (idx : ℕ)
      → CanUnlink t idx
      → (r : Bool × Table K V) × (unlink_element t idx ≡ ok r)
        × SameItems t r.1
        × (r.1.lists ≡ t.lists)
  unlink_element-SameItems t idx c = elim (unlink_element-cases t idx c) [
    | inl kept ↦ ((false, t), kept, SameItems-refl t, refl)
    | inr (u, ran, same, lists) ↦ ((true, u), ran, same, lists)
  ]

  -- `linkHead` ends if the head of the list is an element, and changes no item.
  pub link_head-SameItems :
      (t : Table K V) (thread idx : ℕ)
      → idx < t.num_elements
      → ((t.lists thread).head ≢ list_end_mark → (t.lists thread).head < t.num_elements)
      → (u : Table K V) × (link_head t thread idx ≡ ok u) × SameItems t u
  unfolding link_head element
  link_head-SameItems t thread idx h head_in =
      let links : Links = record { left = list_end_mark; right = (t.lists thread).head } in
      let (e1, s1) = store_links-SameItems t idx links h in
      let t1 = with_links t idx (t.elements idx) links in
      elim (Bool-cases ((t.lists thread).head == list_end_mark)) [
        | inl empty ↦
            let u = set_list t1 thread (record (t.lists thread) { tail = idx; head = idx }) in
            (
              u,
              rw (e1, empty),
              SameItems-trans t t1 u s1 (
                  set_list-SameItems t1 thread
                    (record (t.lists thread) { tail = idx; head = idx })),
            )
        | inr some_head ↦
            let old_in = head_in (==_of_false _ _ some_head) in
            let new_links = record (t1.elements (t.lists thread).head).links { left = idx } in
            let (e2, s2) = store_links-SameItems t1 (t.lists thread).head new_links old_in in
            let t2 =
              with_links t1 (t.lists thread).head (t1.elements (t.lists thread).head) new_links in
            let u = set_list t2 thread (record (t.lists thread) { head = idx }) in
            (
              u,
              rw (e1, some_head, lt→ltb _ _ old_in, e2),
              SameItems-trans t t2 u (SameItems-trans t t1 t2 s1 s2)
                  (set_list-SameItems t2 thread (record (t.lists thread) { head = idx })),
            )
      ]

  -- A used element is moved, or not, in the end, and no item changes.
  pub touch-SameItems :
      (t : Table K V) (thread idx : ℕ)
      → CanUnlink t idx
      → ((t.lists thread).head ≢ list_end_mark → (t.lists thread).head < t.num_elements)
      → (u : Table K V) × (touch t thread idx ≡ ok u) × SameItems t u
  unfolding touch
  touch-SameItems t thread idx c head_in =
      let ((moved, t1), ran, s1, lists) = unlink_element-SameItems t idx c in
      elim (Bool-cases moved) [
        | inl yes_moved ↦
            let counted =
              set_list t1 thread
                (record (t1.lists thread) { moves = (t1.lists thread).moves + 1 }) in
            let same_head : (counted.lists thread).head ≡ (t.lists thread).head =
              ground (arith, ap (λ (ls : ℕ → ThreadList). (ls thread).head) lists) in
            let (u, linked, s2) =
              link_head-SameItems counted thread idx (rw s1.num_elements c.in_range)
                (λ ne. rw (same_head, s1.num_elements) (head_in (λ e. ne (same_head ∙ e)))) in
            (
              u,
              rw (ran, yes_moved, linked),
              SameItems-trans t t1 u s1
                  (SameItems-trans t1 counted u (set_list-SameItems t1 thread _) s2),
            )
        | inr not_moved ↦ (t1, rw (ran, not_moved), s1)
      ]
