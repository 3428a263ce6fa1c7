-- ===== src/Table/Chain.antt =====
-- What the searches of src/LFLRUHashTable.h lock and find.
use yamemcached.Base.{
  ℕ, zero, suc, ◌+◌, ◌%◌, ◌≤◌, ◌<◌, ◌≡◌, ◌≢◌, refl, ap, Bool, true, false, Outcome, ok, ◌>>=◌, leb,
  if◌then◌else◌, update, arith, ==_of_ne,
}
use yamemcached.Table.State.{Table, hash_free_mark, hash_lock_mark, max_lock_depth, set_slot}
use yamemcached.Table.Slots.{lock_element_hash}
use yamemcached.Table.Probe.{Probe, advance, begin_at, search_slots, probe_rounds}
use yamemcached.Table.Range.{slot_at, distance, slot_at-next, distance-slot_at, slot_at-distance}

module _ {K V : Type 0} (t : Table K V) (start : ℕ) where
  abbrev pub slot : ℕ → ℕ
  slot i = t.element_links (slot_at t.hash_size start i)

  -- A search from `start` has locked the slots up to its depth, kept their indexes, and changed
  -- nothing else.
  pub record IsScan (p : Probe K V) : Type 0 where
    pub inside : p.depth < t.hash_size
    pub in_locks : p.depth < max_lock_depth
    pub idx_at : p.idx ≡ slot_at t.hash_size start p.depth
    pub slots :
        (j : ℕ)
        → j < t.hash_size
        → p.table.element_links j ≡ (
            if leb (distance t.hash_size start j) p.depth
            then hash_lock_mark
            else t.element_links j)
    pub kept : (i : ℕ) → i ≤ p.depth → p.locks i ≡ slot i
    pub same : p.table ≡ record t { element_links = p.table.element_links }

  begin_at-IsScan :
      (locks : ℕ → ℕ)
      → start < t.hash_size
      → t.element_links start ≢ hash_lock_mark
      → (p : Probe K V) × (begin_at t locks start ≡ ok p) × IsScan p × (p.depth ≡ 0)
  unfolding begin_at lock_element_hash
  begin_at-IsScan locks inside free = (
    record {
      table = set_slot t start hash_lock_mark;
      locks = update locks 0 (t.element_links start);
      depth = 0;
      idx = start;
    },
    rw (==_of_ne _ _ free),
    record {
      inside = ground arith;
      in_locks = omega arith;
      idx_at = ground arith;
      slots = λ j h. ground arith;
      kept = λ i h. ground arith;
      same = refl;
    },
    refl,
  )

  pub advance-IsScan :
      (p : Probe K V)
      → IsScan p
      → start < t.hash_size
      → p.depth + 1 < t.hash_size
      → p.depth + 1 < max_lock_depth
      → slot (p.depth + 1) ≢ hash_lock_mark
      → (q : Probe K V) × (advance p ≡ ok q) × IsScan q × (q.depth ≡ p.depth + 1)
  unfolding advance lock_element_hash
  advance-IsScan p s at_start inside in_locks free = (
    record {
      table = set_slot p.table next hash_lock_mark;
      locks = update p.locks (p.depth + 1) (slot (p.depth + 1));
      depth = p.depth + 1;
      idx = next;
    },
    ground (arith, next_idx, now),
    record {
      inside = inside;
      in_locks = in_locks;
      idx_at = refl;
      slots = λ j h. ground (
        arith,
        s.slots j,
        distance-slot_at t.hash_size start at_start (p.depth + 1),
        slot_at-distance t.hash_size start at_start j,
      );
      kept = λ i h. ground (arith, s.kept i);
      same =
          ap
            (λ (u : Table K V). record u {
              element_links = update p.table.element_links next hash_lock_mark;
            })
            s.same;
    },
    refl,
  )
    where
      next : ℕ
      next = slot_at t.hash_size start (p.depth + 1)

      size : p.table.hash_size ≡ t.hash_size
      size = ap (λ (u : Table K V). u.hash_size) s.same

      next_idx : (p.idx + 1) % p.table.hash_size ≡ next
      next_idx = rw (size, s.idx_at) (slot_at-next t.hash_size start at_start p.depth inside)

      now : p.table.element_links next ≡ slot (p.depth + 1)
      now = ground (arith, s.slots next, distance-slot_at t.hash_size start at_start (p.depth + 1))

  -- The chain from `start` reaches depth `d`: each slot before it is taken by an element that is not
  -- the one sought, and the slot at `d` is free (`false`) or has the one sought (`true`).
  pub record Stops (hit : ℕ → Outcome Bool) (found : Bool) (d : ℕ) : Type 0 where
    pub inside : d < t.hash_size
    pub in_locks : d < max_lock_depth
    pub taken : (i : ℕ) → i < d → slot i ≢ hash_free_mark
    pub unlocked : (i : ℕ) → i ≤ d → slot i ≢ hash_lock_mark
    pub missed : (i : ℕ) → i < d → hit (slot i) ≡ ok false
    pub at_end :
        if found
        then (slot d ≢ hash_free_mark) × (hit (slot d) ≡ ok true)
        else slot d ≡ hash_free_mark

  search_at_end :
      (rounds : ℕ) (hit : ℕ → Outcome Bool) (found : Bool) (p : Probe K V)
      → IsScan p
      → Stops hit found p.depth
      → search_slots (suc rounds) hit p ≡ ok (found, p)
  unfolding search_slots
  search_at_end rounds hit true p s stops =
      ground (arith, s.kept p.depth, stops.at_end.0, stops.at_end.1)
  search_at_end rounds hit false p s stops = ground (arith, s.kept p.depth, stops.at_end)

  -- From a depth on the way the search ends at depth `d`, with what is there.
  search_slots-Stops :
      (k rounds : ℕ) (hit : ℕ → Outcome Bool) (found : Bool) (d : ℕ) (p : Probe K V)
      → start < t.hash_size
      → Stops hit found d
      → IsScan p
      → p.depth + k ≡ d
      → k < rounds
      → (q : Probe K V) × (search_slots rounds hit p ≡ ok (found, q)) × IsScan q × (q.depth ≡ d)
  unfolding search_slots
  search_slots-Stops k zero hit found d p at_start stops s e more = absurd (omega arith)
  search_slots-Stops zero (suc rounds) hit found d p at_start stops s e more =
      let here : p.depth ≡ d = omega arith in
      (p, search_at_end rounds hit found p s (rw here stops), s, here)
  search_slots-Stops (suc k) (suc rounds) hit found d p at_start stops s e more =
      let (p', ran, s', deeper) =
        advance-IsScan p s at_start (omega (arith, stops.inside)) (omega (arith, stops.in_locks))
          (stops.unlocked (p.depth + 1) (omega arith)) in
      let (q, found_at, scan, depth) =
        search_slots-Stops k rounds hit found d p' at_start stops s' (omega arith) (omega arith) in
      (
        q,
        ground (
          arith,
          s.kept p.depth,
          ran,
          found_at,
          stops.taken p.depth (omega arith),
          stops.missed p.depth (omega arith),
        ),
        scan,
        depth,
      )

  -- The search for what the chain leads to, from the first lock on.
  pub search-Stops :
      (locks : ℕ → ℕ) (hit : ℕ → Outcome Bool) (found : Bool) (d : ℕ)
      → start < t.hash_size
      → Stops hit found d
      → (q : Probe K V) × ((begin_at t locks start >>= λ p. search_slots probe_rounds hit p)
          ≡ ok (found, q))
        × IsScan q
        × (q.depth ≡ d)
  search-Stops locks hit found d at_start stops =
      let first : slot 0 ≡ t.element_links start = ground arith in
      let (p, begun, s, zero_depth) =
        begin_at-IsScan locks at_start (rw first at (stops.unlocked 0 (omega arith))) in
      let (q, ended, scan, depth) =
        search_slots-Stops d probe_rounds hit found d p at_start stops s (omega arith)
          (omega (arith, stops.in_locks)) in
      (q, rw (begun, ended), scan, depth)
