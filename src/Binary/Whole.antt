-- ===== src/Binary/Whole.antt =====
-- What src/YAMBinaryProtocolProcessor.cpp answers to any request, and to SET.
use yamemcached.Base.{
  List, ℕ, ◌+◌, ◌^◌, ◌<◌, ◌≡◌, refl, subst, Bool, true, false, ◌++◌, append-nil, ok-injective,
  ==_of_ne, Outcome, ok, ◌==◌, arith,
}
use yamemcached.Request.Store.{Store}
use yamemcached.Request.Out.{text}
use yamemcached.Binary.Header.{header_size, BinaryHeader, header_bytes, read_header}
use yamemcached.Binary.Commands.{
  Exchange, response, send, send_if, run_add, run_set, run_op, process_binary_request, key_at,
  value_of,
}
use yamemcached.Binary.Frames.{Adds, Gives, gave, aborted, faulted, spun, Gives-if, same_out}
use yamemcached.Binary.Answers.{
  IsShort, run_get-Gives, run_set-Gives, run_add-Gives, run_replace-Gives, run_delete-Gives, plain,
  skipped, read_2-lt,
}

module _ {S : Type 0} (store : Store S) (thread : ℕ) (junk : BinaryHeader) (memory : List ℕ → ℕ → ℕ)
    (exp_time : ℕ) where
  run_op-Gives :
      (locks : ℕ → ℕ) (op : ℕ) (h : BinaryHeader) (x : Exchange S)
      → h.key_len < 2 ^ 16
      → IsShort store x.store thread
          (text (memory x.out) (x.in_buffer_offset + header_size) h.key_len)
      → Gives x (run_op store thread junk memory exp_time locks op h x)
  unfolding run_op
  run_op-Gives locks op h x small short =
      Gives-if x (op == 0)
        (run_get-Gives store thread junk memory exp_time false true h x small short)
        (Gives-if x (op == 9)
          (run_get-Gives store thread junk memory exp_time false false h x small short)
          (Gives-if x (op == 12)
            (run_get-Gives store thread junk memory exp_time true true h x small short)
            (Gives-if x (op == 13)
              (run_get-Gives store thread junk memory exp_time true false h x small short)
              (Gives-if x (op == 1) (run_set-Gives store thread junk memory exp_time true h x) (
                Gives-if x (op == 17) (run_set-Gives store thread junk memory exp_time false h x) (
                  Gives-if x (op == 2) (run_add-Gives store thread junk memory exp_time true h x) (
                    Gives-if x (op == 18)
                      (run_add-Gives store thread junk memory exp_time false h x)
                      (Gives-if x (op == 3)
                        (run_replace-Gives store thread junk memory exp_time locks true h x)
                        (Gives-if x (op == 19)
                          (run_replace-Gives store thread junk memory exp_time locks false h x)
                          (Gives-if x (op == 4)
                            (run_delete-Gives store thread junk memory exp_time true h x)
                            (Gives-if x (op == 20)
                              (run_delete-Gives store thread junk memory exp_time false h x)
                              (Gives-if x (op == 10)
                                (plain store thread junk memory exp_time 0 x x refl)
                                (gave x (same_out x x refl))))))))))))))

  Gives-Adds : {m : Outcome (Exchange S)} (x x' : Exchange S) → Gives x m → m ≡ ok x' → Adds x x'
  Gives-Adds x x' (gave y p) e = subst (Adds x) (ok-injective e) p
  Gives-Adds x x' aborted e = cc
  Gives-Adds x x' faulted e = cc
  Gives-Adds x x' spun e = cc

  -- If every byte that the input shows is below 256, what the store has for the key that a GET of
  -- this request would ask for has fewer than 2^31 bytes, and processBinaryRequest ends, what it
  -- added to the output is whole frames: headers, each with as many bytes behind it as its body
  -- length says.
  pub process_binary_request-Adds :
      (locks : ℕ → ℕ) (x x' : Exchange S)
      → ((i : ℕ) → memory x.out i < 256)
      → IsShort store x.store thread (
          text
            (memory x.out)
            (x.in_buffer_offset + header_size)
            (read_header (memory x.out) x.in_buffer_offset).key_len)
      → process_binary_request store thread junk memory exp_time locks x ≡ ok x'
      → Adds x x'
  unfolding process_binary_request read_header
  process_binary_request-Adds locks x x' byte short e =
      let h = read_header (memory x.out) x.in_buffer_offset in
      Gives-Adds x x'
        (Gives-if x (h.magic == 128)
          (run_op-Gives locks h.op_code h x (read_2-lt (memory x.out) (x.in_buffer_offset + 2) byte)
            short)
          (skipped store thread junk memory exp_time h x))
        e

  -- A SETQ with a key and extras that stores, and whose insert of the same key then finds it
  -- there, sends a header KEY_EXISTS, though it is quiet and the item is stored.
  pub run_set-quiet :
      (x : Exchange S) (b : Bool) (s s' : S)
      → let h = read_header (memory x.out) x.in_buffer_offset in
        let key = key_at store thread junk memory exp_time x.out x.in_buffer_offset h in
        let v = value_of store thread junk memory exp_time x.out x.in_buffer_offset h in
        0 < h.key_len
        → 0 < h.extras_len
        → store.insert_or_set x.store thread key v exp_time ≡ ok (b, s)
        → store.insert s thread key v exp_time ≡ ok (false, s')
        → run_set store thread junk memory exp_time false h x
          ≡ ok (record x { out = x.out ++ header_bytes (response junk 2 0 0 0); store = s' })
  unfolding run_set run_add send_if send
  run_set-quiet x b s s' hk he set added =
      let h = read_header (memory x.out) x.in_buffer_offset in
      rw
        (
          ==_of_ne h.key_len 0 (omega arith),
          ==_of_ne h.extras_len 0 (omega arith),
          set,
          added,
          append-nil,
        )
        refl
