-- ===== src/Binary/Quiet.antt =====
-- SETQ of src/YAMBinaryProtocolProcessor.cpp on the hash table of src/LFLRUHashTable.h.
use yamemcached.Base.{ℕ, ◌<◌, ◌≡◌, true, false, List, ◌++◌, ok}
use yamemcached.Table.State.{Keys, Table}
use yamemcached.Table.Lookup.{Chain, element_of}
use yamemcached.Table.Writes.Take.{CanTake}
use yamemcached.Table.Writes.Again.{insert-insert_or_set}
use yamemcached.Request.Info.{StorageValue}
use yamemcached.Request.Store.{table_store}
use yamemcached.Binary.Header.{BinaryHeader, header_bytes, read_header}
use yamemcached.Binary.Commands.{Exchange, response, run_set, key_at, value_of}
use yamemcached.Binary.Whole.{run_set-quiet}

module _ ⦃keys : Keys (List ℕ)⦄ (thread : ℕ) (junk : BinaryHeader) (memory : List ℕ → ℕ → ℕ)
    (exp_time : ℕ) where
  -- On the hash table, if a SETQ has a key and extras, the chain of the key ends at a free slot,
  -- the key equals itself, the thread has more than one free element, no slot names the first and
  -- the second is an element, then the item is stored, and still a header KEY_EXISTS is sent.
  pub run_set-exists :
      (x : Exchange (Table (List ℕ) StorageValue)) (idx d : ℕ)
      → let t = x.store in
        let h = read_header (memory x.out) x.in_buffer_offset in
        let key = key_at table_store thread junk memory exp_time x.out x.in_buffer_offset h in
        let v = value_of table_store thread junk memory exp_time x.out x.in_buffer_offset h in
        0 < h.key_len
        → 0 < h.extras_len
        → keys.same key key ≡ true
        → 0 < t.hash_size
        → Chain t key false d
        → CanTake t thread idx
        → (t.elements idx).links.right < t.num_elements
        → (u : Table (List ℕ) StorageValue) × (run_set table_store thread junk memory exp_time false
              h x
            ≡ ok (record x { out = x.out ++ header_bytes (response junk 2 0 0 0); store = u }))
          × Chain u key true d
          × ((u.elements (element_of u key d)).value ≡ v)
  run_set-exists x idx d hk he reflexive size chain take next =
      let t = x.store in
      let h = read_header (memory x.out) x.in_buffer_offset in
      let key = key_at table_store thread junk memory exp_time x.out x.in_buffer_offset h in
      let v = value_of table_store thread junk memory exp_time x.out x.in_buffer_offset h in
      let (t1, u, set, again, there, stored) =
        insert-insert_or_set t thread idx key v exp_time d reflexive size chain take next in
      (
        u,
        run_set-quiet table_store thread junk memory exp_time x true t1 u hk he set again,
        there,
        stored,
      )
