-- ===== src/Table/Release.antt =====
-- What `unlockElementsHash` of src/LFLRUHashTable.h leaves in the slots of a locked range.
use yamemcached.Base.{
  ℕ, zero, suc, ◌+◌, ◌≤◌, ◌<◌, ◌≡◌, refl, ◌&&◌, ok, ◌==◌, leb, if◌then◌else◌, arith, ◌∙◌,
}
use yamemcached.Table.State.{Table, max_lock_depth, set_slot}
use yamemcached.Table.Slots.{unlock_elements_hash, unlock_from}
use yamemcached.Table.Range.{
  slot_at, distance, slot_at-step, slot_at-ne, distance-slot_at, slot_at-eq-distance,
  slot_at-distance,
}

-- Slots differ from `t`'s only in the range, where they hold the given indexes.
pub record Stored {K V : Type 0} (t : Table K V) (start from depth : ℕ) (indexes : ℕ → ℕ)
    (t' : Table K V) : Type 0 where
  pub slots :
      (j : ℕ)
      → j < t.hash_size
      → t'.element_links j ≡ (
          if leb from (distance t.hash_size start j) && leb (distance t.hash_size start j) depth
          then indexes (distance t.hash_size start j)
          else t.element_links j)
  pub same : t' ≡ record t { element_links = t'.element_links }

-- One entry more at the front of the range.
next_entry :
    (indexes : ℕ → ℕ) (counter depth x a : ℕ)
    → counter ≤ depth
    → (if leb (counter + 1) x && leb x depth
        then indexes x
        else if counter == x
        then indexes counter
        else a)
      ≡ (if leb counter x && leb x depth then indexes x else a)
next_entry indexes counter depth x a h = ground arith

module _ {K V : Type 0} (start depth : ℕ) (indexes : ℕ → ℕ) where
  unlock_from-Stored :
      (k room counter : ℕ) (t : Table K V)
      → start < t.hash_size
      → depth < t.hash_size
      → counter + k ≡ depth
      → k < room
      → (t' : Table K V) × (unlock_from room t
            (slot_at t.hash_size start counter)
            (slot_at t.hash_size start depth)
            indexes
            counter
          ≡ ok t')
        × Stored t start counter depth indexes t'
  unfolding unlock_from
  unlock_from-Stored k zero counter t at_start inside e more = absurd (omega arith)
  unlock_from-Stored zero (suc room) counter t at_start inside e more = (
    set_slot t (slot_at t.hash_size start counter) (indexes counter),
    ground arith,
    record {
      slots = λ j h. ground (
        arith,
        distance-slot_at t.hash_size start at_start counter,
        slot_at-distance t.hash_size start at_start j,
      );
      same = refl;
    },
  )
  unlock_from-Stored (suc k) (suc room) counter t at_start inside e more =
      let t1 = set_slot t (slot_at t.hash_size start counter) (indexes counter) in
      let (t', ran, stored) =
        unlock_from-Stored k room (counter + 1) t1 at_start inside (omega arith) (omega arith) in
      (
        t',
        ground (
          arith,
          ran,
          slot_at-step t.hash_size start at_start counter,
          slot_at-ne t.hash_size start at_start counter depth,
        ),
        record {
          slots = λ j h.
              stored.slots j h
              ∙ (rw (slot_at-eq-distance t.hash_size start at_start counter j (omega arith) h) (
                  next_entry indexes counter depth (distance t.hash_size start j)
                    (t.element_links j) (omega arith)));
          same = stored.same;
        },
      )

-- The whole of `unlockElementsHash` over a range that fits the array of indexes.
pub unlock-Stored :
    {K V : Type 0} (t : Table K V) (start depth : ℕ) (indexes : ℕ → ℕ)
    → start < t.hash_size
    → depth < t.hash_size
    → depth < max_lock_depth
    → (t' : Table K V) × (unlock_elements_hash t start (slot_at t.hash_size start depth) indexes
        ≡ ok t')
      × Stored t start 0 depth indexes t'
unfolding unlock_elements_hash
unlock-Stored t start depth indexes at_start inside in_locks =
    let first : slot_at t.hash_size start 0 ≡ start = ground arith in
    rw first at (
      unlock_from-Stored start depth indexes depth max_lock_depth 0 t at_start inside (omega arith)
        in_locks)
