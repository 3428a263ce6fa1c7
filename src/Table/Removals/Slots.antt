-- ===== src/Table/Removals/Slots.antt =====
-- What `removeFromHashKey` of src/LFLRUHashTable.h does to the slots, where the slot behind that of
-- the element is free, so that no element is moved into the hole.
use yamemcached.Base.{
  lt→ltb, ℕ, zero, suc, ◌+◌, ◌<◌, ◌≡◌, refl, ap, ◌∙◌, Bool, true, false, inl, inr, Outcome, ok,
  ◌>>=◌, >>=-eq-ok, Bool-cases, ◌==◌, if◌then◌else◌, update, arith, subst, ok-injective,
}
use yamemcached.Table.State.{Keys, Table, element, hash_free_mark, max_lock_depth}
use yamemcached.Table.Slots.{unlock_elements_hash}
use yamemcached.Table.Probe.{
  Probe, Hole, current, advance, search_slots, search_unchecked, begin_at, probe_rounds,
  stay_rounds, remove_key_within, delete_at, close_hole, close_hole_stay, remove_from_hash_pos,
  find_key, remove_from_hash_key, has_key, home, own_locks, keep_locks, release,
}
use yamemcached.Table.Range.{distance, slot_at-distance}
use yamemcached.Table.Chain.{slot, IsScan, search-Stops, advance-IsScan}
use yamemcached.Table.Lookup.{Chain, element_of, release-slots}

module _ {K V : Type 0} where
  -- A search that finds does so without the test for a free slot.
  pub search_unchecked-found :
      (rounds : ℕ) (hit : ℕ → Outcome Bool) (p q : Probe K V)
      → search_slots rounds hit p ≡ ok (true, q)
      → search_unchecked rounds hit p ≡ ok q
  unfolding search_slots search_unchecked
  search_unchecked-found zero hit p q e = cc
  search_unchecked-found (suc rounds) hit p q e = elim (Bool-cases (current p == hash_free_mark)) [
    | inl free ↦
        let nothing : ok (false, p) ≡ ok (true, q) = rw free at e in
        absurd (ground (arith, ap (λ (r : Bool × Probe K V). r.0) (ok-injective nothing)))
    | inr taken ↦
        let (found, tested, rest) = >>=-eq-ok (hit (current p)) _ (rw taken at e) in
        elim (Bool-cases found) [
          | inl here ↦
              let same : ok (true, p) ≡ ok (true, q) = rw here at rest in
              rw (tested, here) (ap (λ (r : Bool × Probe K V). ok (r.1)) (ok-injective same))
          | inr missed ↦
              let (p', ran, later) = >>=-eq-ok (advance p) _ (rw missed at rest) in
              rw (tested, missed, ran) (search_unchecked-found rounds hit p' q later)
        ]
  ]

module _ {K V : Type 0} ⦃keys : Keys K⦄ where
  close_hole_stay-free :
      (rounds : ℕ) (h : Hole K V)
      → current h.probe ≡ hash_free_mark
      → close_hole_stay (suc rounds) h ≡ ok h
  unfolding close_hole_stay
  close_hole_stay-free rounds h free = rw free

  -- The slots with that of the element freed.
  pub record Freed (t w : Table K V) (thread start d : ℕ) : Type 0 where
    pub locks : ℕ → ℕ
    pub same : w ≡ keep_locks (record t { element_links = w.element_links }) thread locks
    pub slots :
        (j : ℕ)
        → j < t.hash_size
        → w.element_links j
          ≡ (if distance t.hash_size start j == d then hash_free_mark else t.element_links j)

  close_hole-free :
      (rounds : ℕ) (h : Hole K V)
      → current h.probe ≡ hash_free_mark
      → close_hole (suc rounds) h ≡ ok h
  unfolding close_hole
  close_hole-free rounds h free = rw free

  -- From the slot of the element on, with the next one free, where the loop ends.
  pub delete-Freed :
      (close : Hole K V → Outcome (Hole K V))
      (ends_at : (h : Hole K V) → current h.probe ≡ hash_free_mark → close h ≡ ok h) (t : Table K V)
      (thread start : ℕ) (q : Probe K V)
      → start < t.hash_size
      → IsScan t start q
      → q.depth + 1 < t.hash_size
      → q.depth + 1 < max_lock_depth
      → slot t start (q.depth + 1) ≡ hash_free_mark
      → (w : Table K V) × ((delete_at close start q >>= λ r. ok (keep_locks r.0 thread r.1)) ≡ ok w)
        × Freed t w thread start q.depth
  unfolding delete_at release
  delete-Freed close ends_at t thread start q at_start s inside in_locks free =
      let (p, ran, s', deeper) =
        advance-IsScan t start q s at_start inside in_locks
          (λ e. absurd (omega (arith, e, free))) in
      let ends : current p ≡ hash_free_mark =
        s'.kept p.depth (omega arith) ∙ ap (slot t start) deeper ∙ free in
      let closed =
        ends_at (record { probe = p; deleted_depth = q.depth; deleted_idx = q.idx }) ends in
      let locks = update p.locks q.depth hash_free_mark in
      let (w, released, same, slots) =
        release-slots t t thread start p.depth (record p { locks = locks }) at_start s'.inside
          s'.in_locks s'.same refl s'.idx_at (λ j h far. s'.slots j h ∙ rw far) in
      let (u, unlocked, kept) =
        >>=-eq-ok (unlock_elements_hash p.table start p.idx locks) _ released in
      (
        w,
        rw (ran, closed, unlocked) kept,
        record {
          locks = locks;
          same = same;
          slots = λ j h. ground (
            arith,
            slots j h,
            deeper,
            s'.kept (distance t.hash_size start j),
            slot_at-distance t.hash_size start at_start j,
          );
        },
      )

  pub remove_from_hash_key-Freed :
      (t : Table K V) (thread : ℕ) (k : K) (d : ℕ)
      → 0 < t.hash_size
      → Chain t k true d
      → d + 1 < t.hash_size
      → d + 1 < max_lock_depth
      → slot t (home t k) (d + 1) ≡ hash_free_mark
      → (w : Table K V) × (remove_from_hash_key t thread k ≡ ok (element_of t k d, w))
        × Freed t w thread (home t k) d
  unfolding remove_key_within
  remove_from_hash_key-Freed t thread k d size chain inside in_locks free =
      let start = home t k in
      let at_start : start < t.hash_size = omega arith in
      let (q, found, s, depth) =
        search-Stops t start (own_locks t thread) (has_key t k) true d at_start chain in
      let (p, begun, searched) = >>=-eq-ok (begin_at t (own_locks t thread) start) _ found in
      let unchecked = search_unchecked-found probe_rounds (has_key t k) p q searched in
      let (w, deleted, freed) =
        delete-Freed (close_hole_stay stay_rounds) (close_hole_stay-free 493) t thread start q
          at_start s (rw depth inside) (rw depth in_locks) (rw depth free) in
      let (r, done, kept) = >>=-eq-ok (delete_at (close_hole_stay stay_rounds) start q) _ deleted in
      let here : current q ≡ element_of t k d =
        s.kept q.depth (omega arith) ∙ ap (slot t start) depth in
      (
        w,
        rw (begun, unchecked, done)
            (ap (λ (u : Table K V). ok (current q, u)) (ok-injective kept) ∙ rw here),
        subst (Freed t w thread start) depth freed,
      )

  -- `removeFromHashPos` of an element that the chain of its key ends at.
  pub remove_from_hash_pos-Freed :
      (t : Table K V) (thread old d : ℕ)
      → old < t.num_elements
      → 0 < t.hash_size
      → Chain t (t.elements old).key true d
      → d + 1 < t.hash_size
      → d + 1 < max_lock_depth
      → slot t (home t (t.elements old).key) (d + 1) ≡ hash_free_mark
      → (w : Table K V) × (remove_from_hash_pos t thread old ≡ ok (true, w))
        × Freed t w thread (home t (t.elements old).key) d
  unfolding remove_from_hash_pos find_key element
  remove_from_hash_pos-Freed t thread old d used size chain inside in_locks free =
      let k = (t.elements old).key in
      let start = home t k in
      let at_start : start < t.hash_size = omega arith in
      let (q, found, s, depth) =
        search-Stops t start (own_locks t thread) (has_key t k) true d at_start chain in
      let (w, deleted, freed) =
        delete-Freed (close_hole probe_rounds) (close_hole-free 246) t thread start q at_start s
          (rw depth inside) (rw depth in_locks) (rw depth free) in
      let (r, done, kept) = >>=-eq-ok (delete_at (close_hole probe_rounds) start q) _ deleted in
      (
        w,
        rw (lt→ltb _ _ used, found, done)
            (ap (λ (u : Table K V). ok (true, u)) (ok-injective kept)),
        subst (Freed t w thread start) depth freed,
      )
