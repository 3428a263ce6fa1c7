-- ===== src/Request/Tickets.antt =====
-- The compare-and-set of src/RequestProcessor.cpp on the hash table of src/LFLRUHashTable.h.
use yamemcached.Base.{
  ℕ, ◌^◌, ◌+◌, ◌%◌, ◌≤◌, ◌<◌, ◌≡◌, refl, Bool, true, List, fault, arith, ==_refl,
}
use yamemcached.Table.State.{Keys, Table, max_lock_depth}
use yamemcached.Table.Faults.{get_locked-found, set_locked-faults}
use yamemcached.Table.Lookup.{Chain, CanTouch, element_of}
use yamemcached.Request.Info.{StorageValue}
use yamemcached.Request.Out.{Out}
use yamemcached.Request.Store.{table_store}
use yamemcached.Request.Commands.{run_cas}

module _ ⦃keys : Keys (List ℕ)⦄ where
  -- On a hash table with at least as many slots as an array of locks has entries, and fewer than
  -- 2^64, a CAS whose key ends its chain at an element that CanTouch holds of, and whose ticket
  -- is that of the element, reads out of its array of locks.
  pub run_cas-faults :
      (t : Table (List ℕ) StorageValue) (thread : ℕ) (junk : ℕ → ℕ) (quiet : Bool) (key : List ℕ)
      (v : StorageValue) (exp_time d : ℕ) (out : Out)
      → max_lock_depth ≤ t.hash_size
      → t.hash_size < 2 ^ 64
      → Chain t key true d
      → CanTouch t thread (element_of t key d)
      → v.cas_ticket ≡ (t.elements (element_of t key d)).value.cas_ticket
      → run_cas table_store thread junk t quiet key v exp_time out ≡ fault
  unfolding run_cas
  run_cas-faults t thread junk quiet key v exp_time d out large small chain c same =
      let (u, locks, got, num) =
        get_locked-found t thread key d junk (omega (arith, large)) chain c in
      let ticket = (t.elements (element_of t key d)).value.cas_ticket in
      let faults =
        set_locked-faults u thread (record v { cas_ticket = (ticket + 1) % 2 ^ 64 }) exp_time locks
          (rw num large) (rw num small) in
      rw (got, same, ==_refl ticket, faults) refl
