-- ===== src/Table/Move.antt =====
-- Moving a used element of src/LFLRUHashTable.h to the head of its list can be done again.
use yamemcached.Base.{
  ℕ, ◌<◌, ◌≡◌, ◌≢◌, refl, sym, ap, ◌∙◌, ◌+◌, ok, ◌==◌, arith, lt→ltb, Bool-cases, inl, inr,
  ==_of_false,
}
use yamemcached.Table.State.{Links, ThreadList, Table, element, with_links, set_list, list_end_mark}
use yamemcached.Table.Recent.{unlink_element, link_head, touch}
use yamemcached.Table.Touch.{
  SameItems, SameItems-refl, SameItems-trans, CanUnlink, store_links-SameItems, set_list-SameItems,
  unlink_element-cases,
}

module _ {K V : Type 0} where
  pub CanUnlink-links :
      (t u : Table K V) (idx : ℕ)
      → u.num_elements ≡ t.num_elements
      → ((i : ℕ) → (u.elements i).links ≡ (t.elements i).links)
      → CanUnlink t idx
      → CanUnlink u idx
  CanUnlink-links t u idx num links c = record {
    in_range = rw num c.in_range;
    marks_free = rw num c.marks_free;
    left_in = rw (links idx, num) c.left_in;
    right_in = rw (links idx, num) c.right_in;
    apart = rw (links idx) c.apart;
    left_back = rw (links idx, links (t.elements idx).links.left) c.left_back;
    right_back = rw (links idx, links (t.elements idx).links.right) c.right_back;
  }

  -- The element stands at the head of a list, or where `unlinkElement` and `linkHead` end.
  pub data CanMove (t : Table K V) (thread idx : ℕ) : Type 0 where
    at_head :
        idx < t.num_elements → (t.elements idx).links.left ≡ list_end_mark → CanMove t thread idx
    inside :
        CanUnlink t idx
        → ((t.lists thread).head ≢ list_end_mark → (t.lists thread).head < t.num_elements)
        → (t.lists thread).head ≢ idx
        → CanMove t thread idx

  -- `linkHead` of an element that is not the head gives it no left sibling.
  pub link_head-CanMove :
      (t : Table K V) (thread idx : ℕ)
      → idx < t.num_elements
      → ((t.lists thread).head ≢ list_end_mark → (t.lists thread).head < t.num_elements)
      → (t.lists thread).head ≢ idx
      → (u : Table K V) × (link_head t thread idx ≡ ok u)
        × SameItems t u
        × ((u.elements idx).links.left ≡ list_end_mark)
        × ((u.lists thread).free_list_head ≡ (t.lists thread).free_list_head)
  unfolding link_head element
  link_head-CanMove t thread idx h head_in apart =
      let links : Links = record { left = list_end_mark; right = (t.lists thread).head } in
      let (e1, s1) = store_links-SameItems t idx links h in
      let t1 = with_links t idx (t.elements idx) links in
      elim (Bool-cases ((t.lists thread).head == list_end_mark)) [
        | inl empty ↦
            let u = set_list t1 thread (record (t.lists thread) { tail = idx; head = idx }) in
            (
              u,
              rw (e1, empty),
              SameItems-trans t t1 u s1 (
                  set_list-SameItems t1 thread
                    (record (t.lists thread) { tail = idx; head = idx })),
              ground arith,
              ground arith,
            )
        | inr some_head ↦
            let old_in = head_in (==_of_false _ _ some_head) in
            let new_links = record (t1.elements (t.lists thread).head).links { left = idx } in
            let (e2, s2) = store_links-SameItems t1 (t.lists thread).head new_links old_in in
            let t2 =
              with_links t1 (t.lists thread).head (t1.elements (t.lists thread).head) new_links in
            let u = set_list t2 thread (record (t.lists thread) { head = idx }) in
            (
              u,
              rw (e1, some_head, lt→ltb _ _ old_in, e2),
              SameItems-trans t t2 u (SameItems-trans t t1 t2 s1 s2)
                  (set_list-SameItems t2 thread (record (t.lists thread) { head = idx })),
              ground arith,
              ground arith,
            )
      ]

  moved_list :
      (t t1 : Table K V) (thread : ℕ)
      → t1.lists ≡ t.lists
      → let counted =
          set_list t1 thread (record (t1.lists thread) { moves = (t1.lists thread).moves + 1 }) in
        (counted.lists thread).head ≡ (t.lists thread).head
  moved_list t t1 thread lists =
      ground (arith, ap (λ (ls : ℕ → ThreadList). (ls thread).head) lists)

  touch-inside :
      (t : Table K V) (thread idx : ℕ)
      → CanUnlink t idx
      → ((t.lists thread).head ≢ list_end_mark → (t.lists thread).head < t.num_elements)
      → (t.lists thread).head ≢ idx
      → (u : Table K V) × (touch t thread idx ≡ ok u) × SameItems t u × CanMove u thread idx
  unfolding touch
  touch-inside t thread idx c head_in apart = elim (unlink_element-cases t idx c) [
    | inl kept ↦ (t, rw kept refl, SameItems-refl t, inside c head_in apart)
    | inr (t1, ran, s1, lists) ↦
        let counted =
          set_list t1 thread (record (t1.lists thread) { moves = (t1.lists thread).moves + 1 }) in
        let same_head = moved_list t t1 thread lists in
        let range : idx < counted.num_elements = rw s1.num_elements c.in_range in
        let (u, linked, s2, first, free) =
          link_head-CanMove counted thread idx range
            (λ ne. rw (same_head, s1.num_elements) (head_in (λ e. ne (same_head ∙ e))))
            (λ e. apart (sym same_head ∙ e)) in
        (
          u,
          rw (ran, linked) refl,
          SameItems-trans t t1 u s1
              (SameItems-trans t1 counted u (set_list-SameItems t1 thread _) s2),
          at_head (rw s2.num_elements range) first,
        )
  ]

  -- An element that can be moved is moved, or not, in the end, and can be moved again; no slot, key
  -- or value changes.
  pub touch-CanMove :
      (t : Table K V) (thread idx : ℕ)
      → CanMove t thread idx
      → (u : Table K V) × (touch t thread idx ≡ ok u) × SameItems t u × CanMove u thread idx
  unfolding touch unlink_element element
  touch-CanMove t thread idx (inside c head_in apart) = touch-inside t thread idx c head_in apart
  touch-CanMove t thread idx (at_head h first) =
      (t, rw (lt→ltb _ _ h, first) refl, SameItems-refl t, at_head h first)

  -- Only the links and the head of the list matter.
  pub CanMove-links :
      (t u : Table K V) (thread idx : ℕ)
      → u.num_elements ≡ t.num_elements
      → ((i : ℕ) → (u.elements i).links ≡ (t.elements i).links)
      → (u.lists thread).head ≡ (t.lists thread).head
      → CanMove t thread idx
      → CanMove u thread idx
  CanMove-links t u thread idx num links head (at_head h first) =
      at_head (rw num h) (ap (λ (l : Links). l.left) (links idx) ∙ first)
  CanMove-links t u thread idx num links head (inside c head_in apart) =
      inside (CanUnlink-links t u idx num links c) (rw (head, num) head_in) (rw head apart)
