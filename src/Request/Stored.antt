-- ===== src/Request/Stored.antt =====
-- The commands of src/RequestProcessor.cpp on the hash table of src/LFLRUHashTable.h: what one command
-- has stored is what the next one replies.
use yamemcached.Base.{
  ℕ, ◌+◌, ◌^◌, ◌≤◌, ◌<◌, ◌≡◌, refl, sym, ◌∙◌, true, false, some, List, [], ◌∷◌, ◌++◌, length,
  length-append, ok, arith,
}
use yamemcached.Table.State.{Keys, Table}
use yamemcached.Table.Methods.{get}
use yamemcached.Table.Lookup.{Chain}
use yamemcached.Table.Writes.Take.{CanTake}
use yamemcached.Table.Writes.Insert.{insert_or_set-missing}
use yamemcached.Table.Writes.Found.{get-insert}
use yamemcached.Request.Info.{StorageValue}
use yamemcached.Request.Out.{Out}
use yamemcached.Request.Store.{table_store}
use yamemcached.Request.Commands.{run_set, run_get, get_all, get_one, answer, stored_text, end_text}
use yamemcached.Request.Room.{
  IsRoomy, IsDecimal, decimal-length, reply-lem, append_all, length-strncpy,
}
use yamemcached.Request.Replies.{value_reply-room, item_texts}

abbrev total : List (List ℕ) → ℕ
total [] = 0
total (t ∷ ts) = length t + total ts

length-append_all :
    (bytes : List ℕ) (ts : List (List ℕ)) → length (append_all bytes ts) ≡ length bytes + total ts
length-append_all bytes [] = omega arith
length-append_all bytes (t ∷ ts) =
    omega (arith, length-append_all (bytes ++ t) ts, length-append bytes t)

-- The texts of a found item and the end behind it.
pub record IsItem (key : List ℕ) (v : StorageValue) (before after : List ℕ) : Type 0 where
  pub flags_text : List ℕ
  pub length_text : List ℕ
  pub flags_decimal : IsDecimal flags_text v.flags
  pub length_decimal : IsDecimal length_text (length v.value)
  pub texts : after ≡ append_all before (item_texts key v flags_text length_text) ++ end_text

module _ ⦃keys : Keys (List ℕ)⦄ where
  -- A key that the table has is replied.
  run_get-found :
      (t w : Table (List ℕ) StorageValue) (thread : ℕ) (key : List ℕ) (v : StorageValue) (out : Out)
      → get t thread key ≡ ok (some v, w)
      → IsRoomy out
      → length key + length v.value + 256 + length out.bytes ≤ 2 ^ 62
      → v.flags < 2 ^ 64
      → (out' : Out) × (run_get table_store thread t (key ∷ []) out ≡ ok (out', w))
        × IsItem key v out.bytes out'.bytes
  unfolding run_get get_all get_one
  run_get-found t w thread key v out found roomy few h =
      let (size, flags_text, length_text, df, dl, replied, roomy') =
        value_reply-room key v out roomy (omega arith) h in
      let texts = item_texts key v flags_text length_text in
      let o1 : Out = record { bytes = append_all out.bytes texts; size = size } in
      let (size', ended, room, small) = reply-lem end_text o1 roomy' (
        omega (
          arith,
          length-append_all out.bytes texts,
          length-strncpy key,
          length-strncpy v.value,
          decimal-length df,
          decimal-length dl,
        )) in
      (
        record { bytes = o1.bytes ++ end_text; size = size' },
        rw (found, replied, ended) refl,
        record {
          flags_text = flags_text;
          length_text = length_text;
          flags_decimal = df;
          length_decimal = dl;
          texts = refl;
        },
      )

  -- On the hash table, where the chain of the key ends at a free slot, the thread has more than
  -- one free element and no slot names the first, the key equals itself, the output buffer is in
  -- order and the texts fit, SET replies STORED, and the GET of the key that follows replies the
  -- line with the key, the flags and the length in decimal, the value as strncpy copies it, and
  -- END.
  pub set-get :
      (t : Table (List ℕ) StorageValue) (thread idx : ℕ) (key : List ℕ) (v : StorageValue)
      (exp_time d : ℕ) (out : Out)
      → keys.same key key ≡ true
      → 0 < t.hash_size
      → Chain t key false d
      → CanTake t thread idx
      → IsRoomy out
      → length key + length v.value + 264 + length out.bytes ≤ 2 ^ 62
      → v.flags < 2 ^ 64
      → (out1 : Out) × (out2 : Out) × (u : Table (List ℕ) StorageValue) × (w : Table
          (List ℕ)
          StorageValue)
        × (run_set table_store thread t false key v exp_time out ≡ ok (out1, u))
        × (out1.bytes ≡ out.bytes ++ stored_text)
        × (run_get table_store thread u (key ∷ []) out1 ≡ ok (out2, w))
        × IsItem key v out1.bytes out2.bytes
  unfolding run_set answer
  set-get t thread idx key v exp_time d out reflexive size c take roomy few h =
      let (u, inserted, (w, found, _), _) =
        get-insert t thread idx key v exp_time d reflexive size c take in
      let (u', inserted', set) = insert_or_set-missing t thread idx key v exp_time d size c take in
      let (size1, stored, room, small) = reply-lem stored_text out roomy (omega arith) in
      let out1 : Out = record { bytes = out.bytes ++ stored_text; size = size1 } in
      let (out2, replied, item) =
        run_get-found u w thread key v out1 found
          (record { fits = omega arith; some = omega arith; small = small })
          (omega (arith, length-append out.bytes stored_text)) h in
      (out1, out2, u, w, rw (set ∙ sym inserted' ∙ inserted, stored) refl, refl, replied, item)
