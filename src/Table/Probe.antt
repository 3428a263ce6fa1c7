-- ===== src/Table/Probe.antt =====
-- The searches of src/LFLRUHashTable.h along the slots, each of which locks what it passes, and
-- the three removals from the slots.
use yamemcached.Base.{
  ℕ, zero, suc, ◌+◌, ◌%◌, Bool, true, false, Outcome, ok, fault, spin, abort, ◌>>=◌, ◌==◌, leb,
  if◌then◌else◌, update,
}
use yamemcached.Table.State.{Keys, Table, element, hash_free_mark, max_lock_depth, set_list}
use yamemcached.Table.Slots.{lock_element_hash, unlock_elements_hash}

-- The variables of a search: `idx` is also the end of the locked range.
pub record Probe (K V : Type 0) : Type 0 where
  pub table : Table K V
  pub locks : ℕ → ℕ
  pub depth : ℕ
  pub idx : ℕ

-- A write to `locks`, which has `HASH_MAX_LOCK_DEPTH` entries.
unfoldable pub write_lock : (ℕ → ℕ) → ℕ → ℕ → Outcome (ℕ → ℕ)
write_lock locks depth idx = if leb max_lock_depth depth then fault else ok (update locks depth idx)

-- More rounds than there can be depths.
abbrev pub probe_rounds : ℕ
probe_rounds = 247

-- At each depth a loop that ends has at most two rounds: one that moves the element, and one that
-- goes on to the next slot.
abbrev pub stay_rounds : ℕ
stay_rounds = 494

-- The hole that a removal moves forward.
pub record Hole (K V : Type 0) : Type 0 where
  pub probe : Probe K V
  pub deleted_depth : ℕ
  pub deleted_idx : ℕ

module _ {K V : Type 0} where
  -- `locks[lockDepth]`
  abbrev pub current : Probe K V → ℕ
  current p = p.locks p.depth

  -- Lock the next slot, with the check of the depth.
  unfoldable pub advance : Probe K V → Outcome (Probe K V)
  unfolding write_lock
  advance p =
      let idx = (p.idx + 1) % p.table.hash_size in
      if leb max_lock_depth p.depth
      then abort
      else (lock_element_hash p.table idx >>= λ r. write_lock p.locks (p.depth + 1) r.0 >>= λ locks.
          ok (record { table = r.1; locks = locks; depth = p.depth + 1; idx = idx }))

  -- Lock the first slot.
  unfoldable pub begin_at : Table K V → (ℕ → ℕ) → ℕ → Outcome (Probe K V)
  begin_at t locks idx = lock_element_hash t idx >>= λ r.
      ok (record { table = r.1; locks = update locks 0 r.0; depth = 0; idx = idx })

  -- `while (locks[lockDepth] != HASH_FREE_MARK)`: a hit is `true`, the end of the chain `false`.
  -- The depth grows in each round and is checked, so `rounds` from the depth never run out.
  unfoldable pub search_slots : ℕ → (ℕ → Outcome Bool) → Probe K V → Outcome (Bool × Probe K V)
  search_slots zero hit p = abort
  search_slots (suc rounds) hit p =
      let rest = advance p >>= λ p'. search_slots rounds hit p' in
      if current p == hash_free_mark
      then ok (false, p)
      else (hit (current p) >>= λ found. if found then ok (true, p) else rest)

  -- The search of `removeFromHashKey`, which has no test for a free slot.
  unfoldable pub search_unchecked : ℕ → (ℕ → Outcome Bool) → Probe K V → Outcome (Probe K V)
  search_unchecked zero hit p = abort
  search_unchecked (suc rounds) hit p =
      let rest = advance p >>= λ p'. search_unchecked rounds hit p' in
      hit (current p) >>= λ found. if found then ok p else rest

module _ {K V : Type 0} ⦃keys : Keys K⦄ where
  -- `elementStorage[locks[lockDepth]].key == inKey`
  unfoldable pub has_key : Table K V → K → ℕ → Outcome Bool
  has_key t k idx = element t idx >>= λ e. ok (keys.same e.key k)

  -- `hasherFunc(inKey) % hashSize`
  abbrev pub home : Table K V → K → ℕ
  home t k = keys.hasher k % t.hash_size

  -- The search of a key from its home, with the thread's own array of locks.
  unfoldable pub find_key : Table K V → (ℕ → ℕ) → K → Outcome (Bool × Probe K V)
  find_key t locks k =
      begin_at t locks (home t k) >>= λ p. search_slots probe_rounds (has_key t k) p

  -- Move the current slot's element into the hole; the slot is the new hole.
  abbrev pub fill_hole : Hole K V → Hole K V
  fill_hole h = record {
    probe = record h.probe { locks = update h.probe.locks h.deleted_depth (current h.probe) };
    deleted_depth = h.probe.depth;
    deleted_idx = h.probe.idx;
  }

  -- `removeFromHashPos` and `removeFromHashIdx` walk on after each slot.
  unfoldable pub close_hole : ℕ → Hole K V → Outcome (Hole K V)
  close_hole zero h = abort
  close_hole (suc rounds) h =
      let next_hole =
        λ (h' : Hole K V). advance h'.probe >>= λ p. close_hole rounds (record h' { probe = p }) in
      if current h.probe == hash_free_mark
      then ok h
      else (element h.probe.table (current h.probe) >>= λ e.
          next_hole (if leb (home h.probe.table e.key) h.deleted_idx then fill_hole h else h))

  -- A round of `removeFromHashKey`, which stays at the slot where it has moved its element.
  unfoldable pub stay_step : Hole K V → Outcome (Hole K V)
  stay_step h = element h.probe.table (current h.probe) >>= λ e.
      if leb (home h.probe.table e.key) h.deleted_idx
      then ok (fill_hole h)
      else (advance h.probe >>= λ p. ok (record h { probe = p }))

  -- The loop of `removeFromHashKey`; `spin` where the rounds run out before it ends.
  unfoldable pub close_hole_stay : ℕ → Hole K V → Outcome (Hole K V)
  close_hole_stay zero h = spin
  close_hole_stay (suc rounds) h =
      let rest = stay_step h >>= λ h'. close_hole_stay rounds h' in
      if current h.probe == hash_free_mark then ok h else rest

  -- What the removals do from the slot that they found on.
  unfoldable pub delete_at :
      (Hole K V → Outcome (Hole K V)) → ℕ → Probe K V → Outcome (Table K V × (ℕ → ℕ))
  delete_at close start p = advance p >>= λ p'.
      close (record { probe = p'; deleted_depth = p.depth; deleted_idx = p.idx }) >>= λ h.
      let locks = update h.probe.locks h.deleted_depth hash_free_mark in
      unlock_elements_hash h.probe.table start h.probe.idx locks >>= λ t. ok (t, locks)

  -- `lruLists[threadIdx].locks`
  abbrev pub own_locks : Table K V → ℕ → ℕ → ℕ
  own_locks t thread = (t.lists thread).locks

  abbrev pub keep_locks : Table K V → ℕ → (ℕ → ℕ) → Table K V
  keep_locks t thread locks = set_list t thread (record (t.lists thread) { locks = locks })

  -- Unlock, found or not.
  unfoldable pub release : Table K V → ℕ → ℕ → Probe K V → Outcome (Table K V)
  release t thread start p =
      unlock_elements_hash p.table start p.idx p.locks >>= λ t'. ok (keep_locks t' thread p.locks)

  -- `removeFromHashPos`
  unfoldable pub remove_from_hash_pos : Table K V → ℕ → ℕ → Outcome (Bool × Table K V)
  remove_from_hash_pos t thread storage_pos = element t storage_pos >>= λ removed.
      find_key t (own_locks t thread) removed.key >>= λ r.
      if r.0
      then (delete_at (close_hole probe_rounds) (home t removed.key) r.1 >>= λ d.
          ok (true, keep_locks d.0 thread d.1))
      else (release t thread (home t removed.key) r.1 >>= λ t'. ok (false, t'))

  -- `removeFromHashKey`, with the element's index as `pos`, and the rounds that its loop may take
  unfoldable pub remove_key_within : ℕ → Table K V → ℕ → K → Outcome (ℕ × Table K V)
  remove_key_within rounds t thread k = begin_at t (own_locks t thread) (home t k) >>= λ p.
      search_unchecked probe_rounds (has_key t k) p >>= λ q.
      delete_at (close_hole_stay rounds) (home t k) q >>= λ d.
      ok (current q, keep_locks d.0 thread d.1)

  abbrev pub remove_from_hash_key : Table K V → ℕ → K → Outcome (ℕ × Table K V)
  remove_from_hash_key = remove_key_within stay_rounds

  -- `removeFromHashIdx`
  unfoldable pub remove_from_hash_idx : Table K V → ℕ → ℕ → ℕ → Outcome (Bool × Table K V)
  remove_from_hash_idx t thread pos element_idx = begin_at t (own_locks t thread) pos >>= λ p.
      search_slots probe_rounds (λ idx. ok (idx == element_idx)) p >>= λ r.
      if r.0
      then (delete_at (close_hole probe_rounds) pos r.1 >>= λ d.
          ok (true, keep_locks d.0 thread d.1))
      else (release t thread pos r.1 >>= λ t'. ok (false, t'))
