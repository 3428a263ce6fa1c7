-- ===== src/Table/Removals/Lost.antt =====
-- `remove` of src/LFLRUHashTable.h, where the slot behind that of the element is free: the key is
-- not found any more, and every other key is.
use yamemcached.Base.{
  ℕ, ◌+◌, ◌≤◌, ◌<◌, ◌%◌, ◌≡◌, ◌≢◌, refl, ap, sym, ◌∙◌, Bool, true, false, inl, inr, none, Outcome,
  ok, ◌>>=◌, dec_lt, Bool-cases, ◌==◌, if◌then◌else◌, arith, ==_of_ne, ==_refl,
}
use yamemcached.Table.State.{
  Keys, Links, ThreadList, Table, Element, with_links, set_list, hash_free_mark, max_lock_depth,
  list_end_mark,
}
use yamemcached.Table.Probe.{home}
use yamemcached.Table.Recent.{unlink_element, push_free}
use yamemcached.Table.Methods.{get, remove}
use yamemcached.Table.Range.{
  slot_at, distance, slot_at-lt, distance-slot_at, slot_at-distance, slot_at-next,
}
use yamemcached.Table.Chain.{slot}
use yamemcached.Table.Touch.{
  SameItems, SameItems-trans, CanUnlink, unlink_element-SameItems, store_links-SameItems,
  set_list-SameItems,
}
use yamemcached.Table.Move.{CanUnlink-links}
use yamemcached.Table.Agree.{Chain-agree, has_key-same}
use yamemcached.Table.Lookup.{Chain, element_of, get-missing}
use yamemcached.Table.Removals.Slots.{remove_from_hash_key-Freed}

module _ {K V : Type 0} ⦃keys : Keys K⦄ where
  -- All is as it was but for the freed slot.
  pub record Lost (t u : Table K V) (start d : ℕ) : Type 0 where
    pub num_elements : u.num_elements ≡ t.num_elements
    pub hash_size : u.hash_size ≡ t.hash_size
    pub slots :
        (j : ℕ)
        → j < t.hash_size
        → u.element_links j
          ≡ (if distance t.hash_size start j == d then hash_free_mark else t.element_links j)
    pub keys_kept : (i : ℕ) → (u.elements i).key ≡ (t.elements i).key
    pub values : (i : ℕ) → (u.elements i).value ≡ (t.elements i).value

  abbrev give_back : ℕ → ℕ → Bool × Table K V → Outcome (Bool × Table K V)
  give_back thread idx r =
      if r.0 then (push_free r.1 thread idx >>= λ t'. ok (true, t')) else ok (true, r.1)

  -- The element of the slot is put into the free list where it can be unlinked.
  give_back-SameItems :
      (w : Table K V) (thread idx : ℕ)
      → CanUnlink w idx
      → (u : Table K V) × ((unlink_element w idx >>= give_back thread idx) ≡ ok (true, u))
        × SameItems w u
  unfolding push_free
  give_back-SameItems w thread idx c =
      let ((unlinked, u1), ran, same, lists) = unlink_element-SameItems w idx c in
      elim (Bool-cases unlinked) [
        | inr stays ↦ (u1, rw (ran, stays) refl, same)
        | inl out ↦
            let links : Links = record {
              left = list_end_mark;
              right = (u1.lists thread).free_list_head;
            } in
            let (stored, same') =
              store_links-SameItems u1 idx links (rw same.num_elements c.in_range) in
            let u2 = with_links u1 idx (u1.elements idx) links in
            let list : ThreadList = record (u1.lists thread) { free_list_head = idx } in
            (
              set_list u2 thread list,
              rw (ran, out, stored) refl,
              SameItems-trans w u1 _ same
                  (SameItems-trans u1 u2 _ same' (set_list-SameItems u2 thread list)),
            )
      ]

  remove-Lost :
      (t : Table K V) (thread : ℕ) (k : K) (d : ℕ)
      → 0 < t.hash_size
      → Chain t k true d
      → d + 1 < t.hash_size
      → d + 1 < max_lock_depth
      → slot t (home t k) (d + 1) ≡ hash_free_mark
      → CanUnlink t (element_of t k d)
      → (u : Table K V) × (remove t thread k ≡ ok (true, u)) × Lost t u (home t k) d
  unfolding remove
  remove-Lost t thread k d size chain inside in_locks free c =
      let (w, removed, freed) =
        remove_from_hash_key-Freed t thread k d size chain inside in_locks free in
      let elements : w.elements ≡ t.elements = ap (λ (z : Table K V). z.elements) freed.same in
      let num : w.num_elements ≡ t.num_elements =
        ap (λ (z : Table K V). z.num_elements) freed.same in
      let hs : w.hash_size ≡ t.hash_size = ap (λ (z : Table K V). z.hash_size) freed.same in
      let (u, given, same) =
        give_back-SameItems w thread (element_of t k d) (
          CanUnlink-links t w _ num (λ i. ap (λ (es : ℕ → Element K V). (es i).links) elements)
            c) in
      (
        u,
        rw (removed) given,
        record {
          num_elements = same.num_elements ∙ num;
          hash_size = same.hash_size ∙ hs;
          slots = λ j h. same.slots j (rw hs h) ∙ freed.slots j h;
          keys_kept = λ i. same.keys i ∙ ap (λ (es : ℕ → Element K V). (es i).key) elements;
          values = λ i. same.values i ∙ ap (λ (es : ℕ → Element K V). (es i).value) elements;
        },
      )

  module _ (t u : Table K V) (k : K) (d : ℕ) (size : 0 < t.hash_size)
      (l : Lost t u (home t k) d) where
    -- A slot of a chain of the table that is left.
    slot-Lost :
        (k2 : K) (i : ℕ)
        → i < t.hash_size
        → slot u (home u k2) i ≡ (
            if distance t.hash_size (home t k) (slot_at t.hash_size (home t k2) i) == d
            then hash_free_mark
            else slot t (home t k2) i)
    slot-Lost k2 i h =
        ap (λ (n : ℕ). u.element_links (slot_at n (keys.hasher k2 % n) i)) l.hash_size
        ∙ l.slots (slot_at t.hash_size (home t k2) i)
            (slot_at-lt t.hash_size (home t k2) (omega arith) i h)

    own_slot :
        (i : ℕ)
        → i < t.hash_size
        → slot u (home u k) i ≡ (if i == d then hash_free_mark else slot t (home t k) i)
    own_slot i h =
        slot-Lost k i h ∙ rw (distance-slot_at t.hash_size (home t k) (omega arith) i h) refl

    -- The chain of the key ends where its element stood.
    pub Chain-Lost : Chain t k true d → Chain u k false d
    Chain-Lost c = record {
      inside = rw l.hash_size c.inside;
      in_locks = c.in_locks;
      taken = λ i h.
          rw (own_slot i (omega (arith, c.inside)), ==_of_ne i d (omega arith)) (c.taken i h);
      unlocked = λ i h. λ e. ground (arith, own_slot i (omega (arith, c.inside)), c.unlocked i h);
      missed = λ i h.
          rw (own_slot i (omega (arith, c.inside)), ==_of_ne i d (omega arith))
            (has_key-same t u k _ l.num_elements (l.keys_kept _) ∙ c.missed i h);
      at_end = own_slot d c.inside ∙ rw (==_refl d) refl;
    }

    module _ (k2 : K) (d2 : ℕ) (inside : d + 1 < t.hash_size)
        (free : slot t (home t k) (d + 1) ≡ hash_free_mark) (c2 : Chain t k2 true d2)
        (other : element_of t k2 d2 ≢ element_of t k d) where
      -- The slot behind that of the element, on a chain that comes by it.
      next_free :
          (i : ℕ)
          → i + 1 < t.hash_size
          → slot_at t.hash_size (home t k2) i ≡ slot_at t.hash_size (home t k) d
          → slot t (home t k2) (i + 1) ≡ hash_free_mark
      next_free i h meets =
          ap t.element_links (
            sym (slot_at-next t.hash_size (home t k2) (omega arith) i h)
            ∙ ap (λ (n : ℕ). (n + 1) % t.hash_size) meets
            ∙ slot_at-next t.hash_size (home t k) (omega arith) d inside)
          ∙ free

      not_met :
          (i : ℕ) → i ≤ d2 → slot_at t.hash_size (home t k2) i ≢ slot_at t.hash_size (home t k) d
      not_met i h meets = elim (dec_lt i d2) [
        | no last ↦
            let e : i ≡ d2 = omega arith in
            other (ap (slot t (home t k2)) (sym e) ∙ ap t.element_links meets)
        | yes before ↦
            let ends = next_free i (omega (arith, c2.inside)) meets in
            elim (dec_lt (i + 1) d2) [
              | yes more ↦ c2.taken (i + 1) more ends
              | no past ↦
                  let e : i + 1 ≡ d2 = omega arith in
                  c2.at_end.0 (ap (slot t (home t k2)) (sym e) ∙ ends)
            ]
      ]

      -- A chain that ends at another element does not come by the slot, since the next one is free.
      slot_kept : (i : ℕ) → i ≤ d2 → slot u (home u k2) i ≡ slot t (home t k2) i
      slot_kept i h =
          let at : ℕ = slot_at t.hash_size (home t k2) i in
          let away : distance t.hash_size (home t k) at ≢ d = λ e. not_met i h (
            sym (
              slot_at-distance t.hash_size (home t k) (omega arith) at
                (slot_at-lt t.hash_size (home t k2) (omega arith) i (omega (arith, c2.inside))))
            ∙ ap (slot_at t.hash_size (home t k)) e) in
          slot-Lost k2 i (omega (arith, c2.inside)) ∙ rw (==_of_ne _ _ away) refl

      Chain-kept : Chain u k2 true d2
      Chain-kept =
          Chain-agree t u k2 true d2 l.hash_size slot_kept
            (λ i h. has_key-same t u k2 _ l.num_elements (l.keys_kept _)) c2

  -- The keys whose chains end at other elements are still there.
  pub Lost-kept :
      (t u : Table K V) (k : K) (d : ℕ)
      → 0 < t.hash_size
      → Lost t u (home t k) d
      → d + 1 < t.hash_size
      → slot t (home t k) (d + 1) ≡ hash_free_mark
      → (k2 : K) (d2 : ℕ) → Chain t k2 true d2
      → element_of t k2 d2 ≢ element_of t k d
      → Chain u k2 true d2
        × ((u.elements (element_of u k2 d2)).value ≡ (t.elements (element_of t k2 d2)).value)
  Lost-kept t u k d size l inside free k2 d2 c2 other = (
    Chain-kept t u k d size l k2 d2 inside free c2 other,
    ap (λ (i : ℕ). (u.elements i).value)
          (slot_kept t u k d size l k2 d2 inside free c2 other d2 (omega arith))
        ∙ l.values _,
  )

  -- If the chain of the key ends at its element within the lock depth, the slot behind is free
  -- and not past the lock depth, and the element is linked as CanUnlink says, remove returns
  -- true, the next get of the key finds nothing, and each key whose chain ended at another
  -- element still has its chain and its value.
  pub get-remove :
      (t : Table K V) (thread : ℕ) (k : K) (d : ℕ)
      → 0 < t.hash_size
      → Chain t k true d
      → d + 1 < t.hash_size
      → d + 1 < max_lock_depth
      → slot t (home t k) (d + 1) ≡ hash_free_mark
      → CanUnlink t (element_of t k d)
      → (u : Table K V) × (remove t thread k ≡ ok (true, u))
        × ((w : Table K V) × (get u thread k ≡ ok (none, w)) × SameItems u w)
        × ((k2 : K) (d2 : ℕ)
            → Chain t k2 true d2
            → element_of t k2 d2 ≢ element_of t k d
            → Chain u k2 true d2
              × ((u.elements (element_of u k2 d2)).value ≡ (t.elements (element_of t k2 d2)).value))
  get-remove t thread k d size chain inside in_locks free c =
      let (u, ran, l) = remove-Lost t thread k d size chain inside in_locks free c in
      (
        u,
        ran,
        get-missing u thread k d (rw l.hash_size size) (Chain-Lost t u k d size l chain),
        Lost-kept t u k d size l inside free,
      )
