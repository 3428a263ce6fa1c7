-- ===== src/Table/Locked.antt =====
-- The operations of src/LFLRUHashTable.h that keep their slots locked for the caller, by which the
-- server makes a compare-and-set.
use yamemcached.Base.{
  ℕ, ◌+◌, ◌-◌, ◌%◌, ◌^◌, Bool, true, Option, none, some, Outcome, ok, fault, ◌>>=◌, ltb, leb,
  if◌then◌else◌,
}
use yamemcached.Table.State.{Keys, Table, element, max_lock_depth}
use yamemcached.Table.Slots.{unlock_elements_hash}
use yamemcached.Table.Probe.{current, find_key}
use yamemcached.Table.Recent.{touch}
use yamemcached.Table.Expiry.{add_item_exp_time}
use yamemcached.Table.Methods.{store_value}

-- A read of an array of locks.
unfoldable pub read_lock : (ℕ → ℕ) → ℕ → Outcome ℕ
read_lock locks depth = if leb max_lock_depth depth then fault else ok (locks depth)

module _ {K V : Type 0} ⦃keys : Keys K⦄ where
  -- `get` with `casLocks`: the slots stay locked, and the caller's array has their indexes. The
  -- range goes by value, so the caller's `locksStart` and `locksEnd` stay what they were.
  unfoldable pub get_locked : Table K V → ℕ → K → (ℕ → ℕ) → Outcome (Option V × Table K V × (ℕ → ℕ))
  get_locked t thread k cas_locks = find_key t cas_locks k >>= λ r.
      let p = r.1 in
      if r.0
      then (element p.table (current p) >>= λ e.
          touch p.table thread (current p) >>= λ t2. ok (some e.value, t2, p.locks))
      else ok (none, p.table, p.locks)

  -- `lockElement`
  unfoldable pub lock_element : Table K V → ℕ → K → (ℕ → ℕ) → Outcome (Bool × Table K V × (ℕ → ℕ))
  lock_element t thread k cas_locks = find_key t cas_locks k >>= λ r. ok (r.0, r.1.table, r.1.locks)

module _ {K V : Type 0} where
  -- `set` with `casLocks`; the difference of the two ends is that of `unsigned long long`
  unfoldable pub set_locked : Table K V → ℕ → V → ℕ → (ℕ → ℕ) → ℕ → ℕ → Outcome (Bool × Table K V)
  set_locked t thread v exp_time cas_locks locks_start locks_end =
      let depth =
        if ltb locks_start locks_end
        then locks_end - locks_start + 1
        else (t.hash_size + 2 ^ 64 - locks_start + locks_end) % 2 ^ 64 in
      read_lock cas_locks depth >>= λ idx. store_value t idx v >>= λ t1.
      unlock_elements_hash t1 locks_start locks_end cas_locks >>= λ t2.
      touch t2 thread idx >>= λ t3. ok (true, add_item_exp_time t3 thread locks_start idx exp_time)

  -- `unlockElement`
  unfoldable pub unlock_element : Table K V → (ℕ → ℕ) → ℕ → ℕ → Outcome (Bool × Table K V)
  unlock_element t cas_locks locks_start locks_end =
      unlock_elements_hash t locks_start locks_end cas_locks >>= λ t'. ok (true, t')
