-- ===== src/Table/Removals/Rounds.antt =====
-- The rounds that the loop of `removeFromHashKey` of src/LFLRUHashTable.h takes.
use yamemcached.Base.{◌+◌, ◌≤◌, ◌<◌, ◌≡◌, ok}
use yamemcached.Table.State.{Keys, Table, Element, element, max_lock_depth}
use yamemcached.Table.Probe.{Probe, Hole, current, fill_hole, home}

module _ {K V : Type 0} ⦃keys : Keys K⦄ where
  -- What a round comes to: the hole moves to the slot, or the next slot is locked.
  data IsStep (h h' : Hole K V) : Type 0 where
    moved :
        (e : Element K V)
        → element h.probe.table (current h.probe) ≡ ok e
        → home h.probe.table e.key ≤ h.deleted_idx
        → h' ≡ fill_hole h
        → IsStep h h'
    went_on :
        h'.probe.depth ≡ h.probe.depth + 1
        → h'.probe.depth < max_lock_depth
        → ((e : Element K V)
            → element h.probe.table (current h.probe) ≡ ok e
            → h.deleted_idx < home h.probe.table e.key)
        → IsStep h h'
