-- ===== src/Table/Writes/Found.antt =====
-- The chains of src/LFLRUHashTable.h after `insert`: that of the new key, and those of the others.
use yamemcached.Base.{
  dec_lt, ℕ, ◌%◌, ◌<◌, ◌≤◌, ◌≡◌, ◌≢◌, refl, ap, sym, ◌∙◌, Bool, true, false, some, ok, ◌==◌,
  if◌then◌else◌, arith, ==_refl, ==_of_ne, lt→ltb,
}
use yamemcached.Table.State.{Keys, Table, element, hash_free_mark}
use yamemcached.Table.Probe.{has_key, home}
use yamemcached.Table.Methods.{get, insert}
use yamemcached.Table.Range.{slot_at, slot_at-lt, slot_at-ne}
use yamemcached.Table.Chain.{slot}
use yamemcached.Table.Lookup.{Chain, element_of}
use yamemcached.Table.Touch.{SameItems}
use yamemcached.Table.Agree.{Chain-agree, has_key-same}
use yamemcached.Table.Writes.Set.{get-CanMove}
use yamemcached.Table.Writes.Take.{Inserted, CanTake}
use yamemcached.Table.Writes.Insert.{insert-missing}

module _ {K V : Type 0} ⦃keys : Keys K⦄ where
  -- A slot of any chain, by the slots before.
  slot-Inserted :
      (t u : Table K V) (pos idx : ℕ) (k k2 : K) (v : V) (i : ℕ)
      → 0 < t.hash_size
      → i < t.hash_size
      → Inserted t u pos idx k v
      → slot u (home u k2) i
        ≡ (if slot_at t.hash_size (home t k2) i == pos then idx else slot t (home t k2) i)
  slot-Inserted t u pos idx k k2 v i size inside o =
      ap (λ (n : ℕ). u.element_links (slot_at n (keys.hasher k2 % n) i)) o.hash_size
      ∙ o.slots (slot_at t.hash_size (home t k2) i)
          (slot_at-lt t.hash_size (home t k2) (omega arith) i inside)

  slot_before :
      (t u : Table K V) (pos idx : ℕ) (k k2 : K) (v : V) (i : ℕ)
      → 0 < t.hash_size
      → i < t.hash_size
      → Inserted t u pos idx k v
      → slot_at t.hash_size (home t k2) i ≢ pos
      → slot u (home u k2) i ≡ slot t (home t k2) i
  slot_before t u pos idx k k2 v i size inside o ne =
      slot-Inserted t u pos idx k k2 v i size inside o ∙ rw (==_of_ne _ _ ne) refl

  -- An element other than the new one has its key.
  has_key-Inserted :
      (t u : Table K V) (pos idx : ℕ) (k k2 : K) (v : V) (i : ℕ)
      → Inserted t u pos idx k v
      → i ≢ idx
      → has_key u k2 i ≡ has_key t k2 i
  has_key-Inserted t u pos idx k k2 v i o ne =
      has_key-same t u k2 i o.num_elements (o.keys i ∙ rw (==_of_ne _ _ ne) refl)

  -- The new element has the new key.
  has_key-new :
      (t u : Table K V) (pos idx : ℕ) (k : K) (v : V)
      → keys.same k k ≡ true
      → idx < t.num_elements
      → Inserted t u pos idx k v
      → has_key u k idx ≡ ok true
  unfolding has_key element
  has_key-new t u pos idx k v reflexive h o =
      let key : (u.elements idx).key ≡ k = o.keys idx ∙ rw (==_refl idx) refl in
      rw (lt→ltb idx u.num_elements (rw o.num_elements h))
        (ap (λ (c : K). ok (keys.same c k)) key ∙ ap (λ (b : Bool). ok b) reflexive)

  pub slot_last :
      (t u : Table K V) (idx : ℕ) (k : K) (v : V) (d : ℕ)
      → 0 < t.hash_size
      → d < t.hash_size
      → Inserted t u (slot_at t.hash_size (home t k) d) idx k v
      → slot u (home u k) d ≡ idx
  slot_last t u idx k v d size inside o =
      slot-Inserted t u _ idx k k v d size inside o
      ∙ rw (==_refl (slot_at t.hash_size (home t k) d)) refl

  -- The chain of the new key ends at the new element, as deep as the free slot was.
  pub Chain-Inserted :
      (t u : Table K V) (thread idx : ℕ) (k : K) (v : V) (d : ℕ)
      → keys.same k k ≡ true
      → 0 < t.hash_size
      → Chain t k false d
      → CanTake t thread idx
      → Inserted t u (slot_at t.hash_size (home t k) d) idx k v
      → Chain u k true d
  Chain-Inserted t u thread idx k v d reflexive size c take o =
      let at : home t k < t.hash_size = omega arith in
      let before = λ (i : ℕ) (h : i < d).
        slot_before t u _ idx k k v i size (omega (arith, c.inside)) o
          (λ e. slot_at-ne t.hash_size (home t k) at i d h c.inside (sym e)) in
      let last = slot_last t u idx k v d size c.inside o in
      record {
        inside = rw o.hash_size c.inside;
        in_locks = c.in_locks;
        taken = λ i h. rw (before i h) (c.taken i h);
        unlocked = λ i h. elim (dec_lt i d) [
          | yes p ↦ rw (before i p) (c.unlocked i h)
          | no p ↦
              let e : i ≡ d = omega arith in
              rw (e, last) (omega (arith, take.marks_free, take.in_range))
        ];
        missed = λ i h.
            rw
              (
                before i h,
                has_key-Inserted t u _ idx k k v (slot t (home t k) i) o (
                    take.unused (slot_at t.hash_size (home t k) i)
                      (slot_at-lt t.hash_size (home t k) at i (omega (arith, c.inside)))),
              )
              (c.missed i h);
        at_end = (
          rw last (omega (arith, take.marks_free, take.in_range)),
          rw last (has_key-new t u _ idx k v reflexive take.in_range o),
        );
      }

  taken_all :
      (t : Table K V) (k : K) (d : ℕ)
      → Chain t k true d
      → (i : ℕ) → i ≤ d
      → slot t (home t k) i ≢ hash_free_mark
  taken_all t k d c i h = elim (dec_lt i d) [
    | yes p ↦ c.taken i p
    | no p ↦ let e : i ≡ d = omega arith in rw e c.at_end.0
  ]

  -- Another key's chain does not change: it has no free slot, and the new element is not in it.
  Chain-kept :
      (t u : Table K V) (thread idx : ℕ) (k k2 : K) (v : V) (d d2 : ℕ)
      → 0 < t.hash_size
      → Chain t k false d
      → CanTake t thread idx
      → Inserted t u (slot_at t.hash_size (home t k) d) idx k v
      → Chain t k2 true d2
      → Chain u k2 true d2 × (element_of u k2 d2 ≡ element_of t k2 d2)
  Chain-kept t u thread idx k k2 v d d2 size free take o c =
      let at : home t k2 < t.hash_size = omega arith in
      let taken = λ (i : ℕ) (h : i ≤ d2). taken_all t k2 d2 c i h in
      let same = λ (i : ℕ) (h : i ≤ d2).
        slot_before t u _ idx k k2 v i size (omega (arith, c.inside)) o
          (λ e. taken i h (ap t.element_links e ∙ free.at_end)) in
      (
        Chain-agree t u k2 true d2 o.hash_size same
            (λ i h. has_key-Inserted t u _ idx k k2 v (slot t (home t k2) i) o (
              take.unused (slot_at t.hash_size (home t k2) i)
                (slot_at-lt t.hash_size (home t k2) at i (omega (arith, c.inside)))))
            c,
        same d2 (omega arith),
      )

  -- If the chain of the key ends at a free slot, the thread has more than one free element, no
  -- slot names the first of them, and the key equals itself, then insert returns true, the next
  -- get of the key returns the inserted value, and each key whose chain ended at its element
  -- still has that chain and that value.
  pub get-insert :
      (t : Table K V) (thread idx : ℕ) (k : K) (v : V) (exp_time d : ℕ)
      → keys.same k k ≡ true
      → 0 < t.hash_size
      → Chain t k false d
      → CanTake t thread idx
      → (u : Table K V) × (insert t thread k v exp_time ≡ ok (true, u))
        × ((w : Table K V) × (get u thread k ≡ ok (some v, w)) × SameItems u w)
        × ((k2 : K) (d2 : ℕ)
            → Chain t k2 true d2
            → Chain u k2 true d2
              × ((u.elements (element_of u k2 d2)).value ≡ (t.elements (element_of t k2 d2)).value))
  get-insert t thread idx k v exp_time d reflexive size c take =
      let (u, ran, o, again) = insert-missing t thread idx k v exp_time d size c take in
      let at_last : element_of u k d ≡ idx = slot_last t u idx k v d size c.inside o in
      let (w, got, items, more) =
        get-CanMove u thread k d (rw o.hash_size size)
          (Chain-Inserted t u thread idx k v d reflexive size c take o) (rw at_last again) in
      let value : (u.elements (element_of u k d)).value ≡ v =
        ap (λ (i : ℕ). (u.elements i).value) at_last ∙ o.values idx ∙ rw (==_refl idx) refl in
      (
        u,
        ran,
        (w, got ∙ ap (λ (x : V). ok (some x, w)) value, items),
        λ k2 d2 c2.
            let (kept, there) = Chain-kept t u thread idx k k2 v d d2 size c take o c2 in
            (
              kept,
              ap (λ (i : ℕ). (u.elements i).value) there
                  ∙ o.values (element_of t k2 d2)
                  ∙ rw
                      (==_of_ne _ _ (
                        take.unused _
                          (slot_at-lt t.hash_size (home t k2) (omega arith) d2 c2.inside)))
                      refl,
            ),
      )
