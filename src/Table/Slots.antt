-- ===== src/Table/Slots.antt =====
-- The locks of the slots of src/LFLRUHashTable.h: `lockElementHash`, `unlockElementsHash`.
use yamemcached.Base.{ℕ, zero, suc, ◌+◌, Outcome, ok, fault, spin, ◌==◌, if◌then◌else◌}
use yamemcached.Table.State.{Table, hash_lock_mark, set_slot, max_lock_depth}

module _ {K V : Type 0} where
  -- `lockElementHash`: the slot's index, with the slot locked. A locked slot is waited for.
  unfoldable pub lock_element_hash : Table K V → ℕ → Outcome (ℕ × Table K V)
  lock_element_hash t pos =
      let idx = t.element_links pos in
      if idx == hash_lock_mark then spin else ok (idx, set_slot t pos hash_lock_mark)

  -- `tryLockElementHash`: the index, or the lock mark with nothing changed
  unfoldable pub try_lock_element_hash : Table K V → ℕ → ℕ × Table K V
  try_lock_element_hash t pos =
      let idx = t.element_links pos in
      if idx == hash_lock_mark then (idx, t) else (idx, set_slot t pos hash_lock_mark)

  -- The loop of `unlockElementsHash`; `room` is what is left of the array of indexes.
  unfoldable pub unlock_from : ℕ → Table K V → ℕ → ℕ → (ℕ → ℕ) → ℕ → Outcome (Table K V)
  unlock_from zero t start end indexes counter = fault
  unlock_from (suc room) t start end indexes counter =
      let t' = set_slot t start (indexes counter) in
      let start' = if start + 1 == t.hash_size then 0 else start + 1 in
      let rest = unlock_from room t' start' end indexes (counter + 1) in
      if end == start then ok t' else rest

  -- `unlockElementsHash`
  unfoldable pub unlock_elements_hash : Table K V → ℕ → ℕ → (ℕ → ℕ) → Outcome (Table K V)
  unlock_elements_hash t start end indexes = unlock_from max_lock_depth t start end indexes 0
