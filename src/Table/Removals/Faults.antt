-- ===== src/Table/Removals/Faults.antt =====
-- Where `remove` of src/LFLRUHashTable.h goes wrong: a key that is not there, and an element behind
-- that of the key that could move forward.
use yamemcached.Base.{
  ℕ, zero, suc, ◌+◌, ◌≤◌, ◌<◌, ◌≡◌, ◌≢◌, refl, sym, ap, ◌∙◌, Bool, true, false, inl, inr, Outcome,
  ok, fault, spin, >>=-eq-ok, ok-injective, Bool-cases, ◌==◌, arith, ==_of_ne, ==_iff, le→leb,
}
use yamemcached.Table.State.{
  Keys, Table, Element, element, hash_free_mark, hash_lock_mark, max_lock_depth,
}
use yamemcached.Table.Probe.{
  Probe, Hole, current, advance, search_slots, search_unchecked, begin_at, probe_rounds,
  stay_rounds, stay_step, fill_hole, remove_key_within, delete_at, close_hole_stay, has_key, home,
  own_locks,
}
use yamemcached.Table.Methods.{remove}
use yamemcached.Table.Range.{slot_at}
use yamemcached.Table.Chain.{slot, IsScan, search-Stops, advance-IsScan}
use yamemcached.Table.Lookup.{Chain, element-same}
use yamemcached.Table.Removals.Slots.{search_unchecked-found}

module _ {K V : Type 0} where
  -- A search that does not find reads the free slot's mark as an index.
  search_unchecked-missing :
      (rounds : ℕ) (hit : ℕ → Outcome Bool) (p q : Probe K V)
      → hit hash_free_mark ≡ fault
      → search_slots rounds hit p ≡ ok (false, q)
      → search_unchecked rounds hit p ≡ fault
  unfolding search_slots search_unchecked
  search_unchecked-missing zero hit p q bad e = cc
  search_unchecked-missing (suc rounds) hit p q bad e =
      elim (Bool-cases (current p == hash_free_mark)) [
        | inl free ↦ rw ((==_iff _ _).0 free, bad) refl
        | inr taken ↦
            let (found, tested, rest) = >>=-eq-ok (hit (current p)) _ (rw taken at e) in
            elim (Bool-cases found) [
              | inl here ↦
                  let same : ok (true, p) ≡ ok (false, q) = rw here at rest in
                  absurd (ground (arith, ap (λ (r : Bool × Probe K V). r.0) (ok-injective same)))
              | inr missed ↦
                  let (p', ran, later) = >>=-eq-ok (advance p) _ (rw missed at rest) in
                  rw (tested, missed, ran) (search_unchecked-missing rounds hit p' q bad later)
            ]
      ]

module _ {K V : Type 0} ⦃keys : Keys K⦄ where
  has_key-free :
      (t : Table K V) (k : K) → t.num_elements ≤ hash_free_mark → has_key t k hash_free_mark ≡ fault
  unfolding has_key element
  has_key-free t k few = ground arith

  -- If the chain of the key ends at a free slot within the lock depth, and the mark of a free
  -- slot is no index of an element, remove reads out of the elements.
  pub remove-missing :
      (t : Table K V) (thread : ℕ) (k : K) (d : ℕ)
      → 0 < t.hash_size
      → t.num_elements ≤ hash_free_mark
      → Chain t k false d
      → remove t thread k ≡ fault
  unfolding remove remove_key_within
  remove-missing t thread k d size few chain =
      let (q, found, s, depth) =
        search-Stops t (home t k) (own_locks t thread) (has_key t k) false d (omega arith) chain in
      let (p, begun, searched) = >>=-eq-ok (begin_at t (own_locks t thread) (home t k)) _ found in
      rw
        (
          begun,
          search_unchecked-missing probe_rounds (has_key t k) p q (has_key-free t k few) searched,
        )
        refl

  pub current-fill_hole : (h : Hole K V) → current (fill_hole h).probe ≡ current h.probe
  current-fill_hole h = ground arith

  -- Where the element may move into the hole, and into its own slot, the hole moves to that slot and
  -- then stays there in every round.
  pub close_hole_stay-hangs :
      (rounds : ℕ) (h : Hole K V) (e : Element K V)
      → current h.probe ≢ hash_free_mark
      → element h.probe.table (current h.probe) ≡ ok e
      → home h.probe.table e.key ≤ h.deleted_idx
      → home h.probe.table e.key ≤ h.probe.idx
      → close_hole_stay rounds h ≡ spin
  unfolding close_hole_stay stay_step
  close_hole_stay-hangs zero h e taken held before behind = refl
  close_hole_stay-hangs (suc rounds) h e taken held before behind =
      let same = current-fill_hole h in
      rw (==_of_ne _ _ taken, held, le→leb _ _ before)
        (close_hole_stay-hangs rounds (fill_hole h) e (λ free. taken (sym same ∙ free))
          (ap (element h.probe.table) same ∙ held) behind behind)

  -- From the slot of the element on, where the next one has an element that may move into either.
  delete-hangs :
      (rounds : ℕ) (t : Table K V) (start : ℕ) (q : Probe K V)
      → start < t.hash_size
      → IsScan t start q
      → q.depth + 1 < t.hash_size
      → q.depth + 1 < max_lock_depth
      → slot t start (q.depth + 1) < t.num_elements
      → t.num_elements ≤ hash_lock_mark
      → home t (t.elements (slot t start (q.depth + 1))).key ≤ slot_at t.hash_size start q.depth
      → home t (t.elements (slot t start (q.depth + 1))).key
        ≤ slot_at t.hash_size start (q.depth + 1)
      → delete_at (close_hole_stay rounds) start q ≡ spin
  unfolding delete_at
  delete-hangs rounds t start q at_start s inside in_locks used few before behind =
      let (p, ran, s', deeper) =
        advance-IsScan t start q s at_start inside in_locks (λ e. absurd (omega arith)) in
      let now : current p ≡ slot t start (q.depth + 1) =
        s'.kept p.depth (omega arith) ∙ ap (slot t start) deeper in
      let size : p.table.hash_size ≡ t.hash_size = ap (λ (u : Table K V). u.hash_size) s'.same in
      let next : Element K V = t.elements (slot t start (q.depth + 1)) in
      let held : element p.table (current p) ≡ ok next =
        ap (element p.table) now ∙ element-same t p.table _ s'.same used in
      let hangs =
        close_hole_stay-hangs rounds
          (record { probe = p; deleted_depth = q.depth; deleted_idx = q.idx }) next
          (λ e. absurd (omega (arith, e, now))) held (rw (size, s.idx_at) before)
          (rw (size, s'.idx_at, deeper) behind) in
      rw (ran, hangs) refl

  -- If the chain of the key ends at its element and the slot behind, within the lock depth, has
  -- an element whose home is at or before both slots, then however many rounds the loop of
  -- removeFromHashKey is given, it has not ended, so remove never ends.
  pub remove-hangs :
      (t : Table K V) (thread : ℕ) (k : K) (d : ℕ)
      → 0 < t.hash_size
      → t.num_elements ≤ hash_lock_mark
      → Chain t k true d
      → d + 1 < t.hash_size
      → d + 1 < max_lock_depth
      → slot t (home t k) (d + 1) < t.num_elements
      → home t (t.elements (slot t (home t k) (d + 1))).key ≤ slot_at t.hash_size (home t k) d
      → home t (t.elements (slot t (home t k) (d + 1))).key ≤ slot_at t.hash_size (home t k) (d + 1)
      → ((rounds : ℕ) → remove_key_within rounds t thread k ≡ spin) × (remove t thread k ≡ spin)
  unfolding remove remove_key_within
  remove-hangs t thread k d size few chain inside in_locks used before behind =
      let (q, found, s, depth) =
        search-Stops t (home t k) (own_locks t thread) (has_key t k) true d (omega arith) chain in
      let (p, begun, searched) = >>=-eq-ok (begin_at t (own_locks t thread) (home t k)) _ found in
      let unchecked = search_unchecked-found probe_rounds (has_key t k) p q searched in
      let hangs = λ (rounds : ℕ).
        delete-hangs rounds t (home t k) q (omega arith) s (rw depth inside) (rw depth in_locks)
          (rw depth used) few (rw depth before) (rw depth behind) in
      (
        λ rounds. rw (begun, unchecked, hangs rounds) refl,
        rw (begun, unchecked, hangs stay_rounds) refl,
      )
