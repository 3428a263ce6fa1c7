-- ===== src/Table/Removals/Evicted.antt =====
-- The eviction of src/LFLRUHashTable.h: with no free element left, the one at the tail of the list
-- of recent use is removed and becomes the thread's free one.
use yamemcached.Base.{
  ℕ, ◌+◌, ◌<◌, ◌%◌, ◌≡◌, ◌≢◌, refl, ap, ◌∙◌, Bool, true, false, none, ok, arith, ==_of_ne, ==_iff,
  subst, lt→ltb,
}
use yamemcached.Table.State.{
  Keys, Links, ThreadList, Table, Element, element, with_links, set_list, hash_free_mark,
  max_lock_depth, list_end_mark, access_lock_mark,
}
use yamemcached.Table.Probe.{home, remove_from_hash_pos}
use yamemcached.Table.Recent.{unlink_tail, push_free, both}
use yamemcached.Table.Methods.{get, evict}
use yamemcached.Table.Range.{slot_at, slot_at-lt}
use yamemcached.Table.Chain.{slot}
use yamemcached.Table.Touch.{SameItems, SameItems-trans, store_links-SameItems, set_list-SameItems}
use yamemcached.Table.Agree.{Chain-same}
use yamemcached.Table.Lookup.{Chain, element_of, get-missing}
use yamemcached.Table.Removals.Slots.{Freed, remove_from_hash_pos-Freed}
use yamemcached.Table.Removals.Lost.{Lost, Chain-Lost, Lost-kept}

-- The element stands at the end of a list that it is not alone in.
pub record IsTail {K V : Type 0} (t : Table K V) (thread old : ℕ) : Type 0 where
  pub is_tail : (t.lists thread).tail ≡ old
  pub in_range : old < t.num_elements
  pub last : (t.elements old).links.right ≡ list_end_mark
  pub not_alone : (t.elements old).links.left ≢ list_end_mark
  pub unlocked : (t.elements old).links.left ≢ access_lock_mark
  pub left_in : (t.elements old).links.left < t.num_elements
  pub left_unlocked : (t.elements (t.elements old).links.left).links.left ≢ access_lock_mark
  pub left_back : (t.elements (t.elements old).links.left).links.right ≡ old

module _ {K V : Type 0} where
  unlink_tail-SameItems :
      (t : Table K V) (thread old : ℕ)
      → IsTail t thread old
      → (u : Table K V) × (unlink_tail t thread ≡ ok (old, u))
        × SameItems t u
        × ((u.lists thread).free_list_head ≡ (t.lists thread).free_list_head)
        × ((u.lists thread).tail ≡ (t.elements old).links.left)
  unfolding unlink_tail element
  unlink_tail-SameItems t thread old i =
      let left = (t.elements old).links.left in
      let list : ThreadList = record (t.lists thread) { tail = left } in
      let t0 = set_list t thread list in
      let new_links : Links = record (t.elements left).links { right = list_end_mark } in
      let (e1, s1) = store_links-SameItems t0 left new_links i.left_in in
      let t1 = with_links t0 left (t.elements left) new_links in
      let (e2, s2) = store_links-SameItems t1 old (both list_end_mark) i.in_range in
      (
        with_links t1 old (t1.elements old) (both list_end_mark),
        rw
            (
              i.is_tail,
              lt→ltb _ _ i.in_range,
              ==_of_ne _ _ i.unlocked,
              (==_iff _ _).1 i.last,
              ==_of_ne _ _ i.not_alone,
              lt→ltb _ _ i.left_in,
              ==_of_ne _ _ i.left_unlocked,
              (==_iff _ _).1 i.left_back,
              e1,
              e2,
            )
            refl,
        SameItems-trans t t0 _ (set_list-SameItems t thread list) (SameItems-trans t0 t1 _ s1 s2),
        ground arith,
        ground arith,
      )

module _ {K V : Type 0} ⦃keys : Keys K⦄ where
  -- The freed slot, with steps before and after it that change no item.
  Lost-between :
      (t t1 w u : Table K V) (thread start d : ℕ)
      → SameItems t t1
      → Freed t1 w thread start d
      → SameItems w u
      → Lost t u start d
  Lost-between t t1 w u thread start d before freed after =
      let num : w.num_elements ≡ t1.num_elements =
        ap (λ (z : Table K V). z.num_elements) freed.same in
      let hs : w.hash_size ≡ t1.hash_size = ap (λ (z : Table K V). z.hash_size) freed.same in
      let elements : w.elements ≡ t1.elements = ap (λ (z : Table K V). z.elements) freed.same in
      record {
        num_elements = after.num_elements ∙ num ∙ before.num_elements;
        hash_size = after.hash_size ∙ hs ∙ before.hash_size;
        slots = λ j h.
            after.slots j (rw (hs, before.hash_size) h)
            ∙ freed.slots j (rw before.hash_size h)
            ∙ rw (before.hash_size, before.slots j h) refl;
        keys_kept =
            λ i. after.keys i ∙ ap (λ (es : ℕ → Element K V). (es i).key) elements ∙ before.keys i;
        values = λ i.
            after.values i ∙ ap (λ (es : ℕ → Element K V). (es i).value) elements ∙ before.values i;
      }

  -- An element is put at the head of the free list.
  pub push_free-SameItems :
      (w : Table K V) (thread old : ℕ)
      → old < w.num_elements
      → (u : Table K V) × (push_free w thread old ≡ ok u)
        × SameItems w u
        × ((u.lists thread).free_list_head ≡ old)
  unfolding push_free
  push_free-SameItems w thread old h =
      let links : Links = record {
        left = list_end_mark;
        right = (w.lists thread).free_list_head;
      } in
      let (stored, same) = store_links-SameItems w old links h in
      let u1 = with_links w old (w.elements old) links in
      let list : ThreadList = record (w.lists thread) { free_list_head = old } in
      (
        set_list u1 thread list,
        rw stored refl,
        SameItems-trans w u1 _ same (set_list-SameItems u1 thread list),
        ground arith,
      )

  pub slot-same :
      (t u : Table K V) (start i : ℕ)
      → SameItems t u
      → start < t.hash_size
      → i < t.hash_size
      → slot u start i ≡ slot t start i
  slot-same t u start i s at_start h =
      ap (λ (n : ℕ). u.element_links (slot_at n start i)) s.hash_size
      ∙ s.slots (slot_at t.hash_size start i) (slot_at-lt t.hash_size start at_start i h)

  evict-steps :
      (must : Bool) (t t1 w u : Table K V) (thread idx old : ℕ)
      → (t.lists thread).free_list_head ≡ list_end_mark
      → unlink_tail t thread ≡ ok (old, t1)
      → remove_from_hash_pos t1 thread old ≡ ok (true, w)
      → push_free w thread old ≡ ok u
      → evict must t thread idx ≡ ok (old, u)
  unfolding evict
  evict-steps true t t1 w u thread idx old none_free unlinked removed pushed =
      rw ((==_iff _ _).1 none_free, unlinked, removed, pushed) refl
  evict-steps false t t1 w u thread idx old none_free unlinked removed pushed =
      rw ((==_iff _ _).1 none_free, unlinked, removed, pushed) refl

  evict-Lost :
      (must : Bool) (t : Table K V) (thread idx old d : ℕ)
      → (t.lists thread).free_list_head ≡ list_end_mark
      → IsTail t thread old
      → 0 < t.hash_size
      → Chain t (t.elements old).key true d
      → d + 1 < t.hash_size
      → d + 1 < max_lock_depth
      → slot t (home t (t.elements old).key) (d + 1) ≡ hash_free_mark
      → (u : Table K V) × (evict must t thread idx ≡ ok (old, u))
        × Lost t u (home t (t.elements old).key) d
        × ((u.lists thread).free_list_head ≡ old)
  evict-Lost must t thread idx old d none_free i size chain inside in_locks free =
      let k = (t.elements old).key in
      let (t1, unlinked, s1, _, _) = unlink_tail-SameItems t thread old i in
      let same_key : (t1.elements old).key ≡ k = s1.keys old in
      let chain1 : Chain t1 (t1.elements old).key true d =
        rw same_key
          (Chain-same t t1 k true d size s1.num_elements s1.hash_size s1.slots s1.keys chain) in
      let home_kept : home t1 (t1.elements old).key ≡ home t k =
        ap (home t1) same_key ∙ ap (λ (n : ℕ). keys.hasher k % n) s1.hash_size in
      let free1 : slot t1 (home t1 (t1.elements old).key) (d + 1) ≡ hash_free_mark =
        ap (λ (start : ℕ). slot t1 start (d + 1)) home_kept
        ∙ slot-same t t1 (home t k) (d + 1) s1 (omega arith) inside
        ∙ free in
      let (w, removed, freed) =
        remove_from_hash_pos-Freed t1 thread old d (rw s1.num_elements i.in_range)
          (rw s1.hash_size size) chain1 (rw s1.hash_size inside) in_locks free1 in
      let num : w.num_elements ≡ t1.num_elements =
        ap (λ (z : Table K V). z.num_elements) freed.same in
      let (u, pushed, s2, head) =
        push_free-SameItems w thread old (rw (num, s1.num_elements) i.in_range) in
      (
        u,
        evict-steps must t t1 w u thread idx old none_free unlinked removed pushed,
        Lost-between t t1 w u thread (home t k) d s1
            (subst (λ (start : ℕ). Freed t1 w thread start d) home_kept freed) s2,
        head,
      )

  -- If the thread's free list is empty, its list of recent use ends at an element that is linked
  -- as IsTail says, the chain of this element's key ends at it within the lock depth, and the
  -- slot behind is free and not past the lock depth, then evict returns this element: it heads
  -- the free list, the next get of its key finds nothing, and each key whose chain ended at
  -- another element still has its chain and its value.
  pub get-evict :
      (must : Bool) (t : Table K V) (thread idx old d : ℕ)
      → (t.lists thread).free_list_head ≡ list_end_mark
      → IsTail t thread old
      → 0 < t.hash_size
      → Chain t (t.elements old).key true d
      → element_of t (t.elements old).key d ≡ old
      → d + 1 < t.hash_size
      → d + 1 < max_lock_depth
      → slot t (home t (t.elements old).key) (d + 1) ≡ hash_free_mark
      → (u : Table K V) × (evict must t thread idx ≡ ok (old, u))
        × ((u.lists thread).free_list_head ≡ old)
        × ((w : Table K V) × (get u thread (t.elements old).key ≡ ok (none, w)) × SameItems u w)
        × ((k2 : K) (d2 : ℕ)
            → Chain t k2 true d2
            → element_of t k2 d2 ≢ old
            → Chain u k2 true d2
              × ((u.elements (element_of u k2 d2)).value ≡ (t.elements (element_of t k2 d2)).value))
  get-evict must t thread idx old d none_free i size chain stands inside in_locks free =
      let k = (t.elements old).key in
      let (u, ran, l, head) =
        evict-Lost must t thread idx old d none_free i size chain inside in_locks free in
      (
        u,
        ran,
        head,
        get-missing u thread k d (rw l.hash_size size) (Chain-Lost t u k d size l chain),
        λ k2 d2 c2 other. Lost-kept t u k d size l inside free k2 d2 c2 (λ e. other (e ∙ stands)),
      )
