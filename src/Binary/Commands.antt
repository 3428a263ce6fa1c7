-- ===== src/Binary/Commands.antt =====
-- The commands of src/YAMBinaryProtocolProcessor.cpp. The output is what was written into
-- `outBuffer`, whose size the code does not know. `memory` gives the input by what was written, as
-- the caller may pass one buffer for both: `λ _. buf` for two, `in_place buf` for one.
use yamemcached.Base.{
  get_elem?, ℕ, ◌+◌, ◌-◌, ◌%◌, ◌^◌, Bool, true, false, not, ◌||◌, none, some, List, [], ◌∷◌, ◌++◌,
  length, Outcome, ok, ◌>>=◌, ◌==◌, if◌then◌else◌,
}
use yamemcached.Request.Info.{StorageValue}
use yamemcached.Request.Out.{text}
use yamemcached.Request.Store.{Store}
use yamemcached.Binary.Header.{
  BinaryHeader, header_size, cas_offset, read_number, bytes_of, read_header, header_bytes,
}

-- `inBufferOffset`, the output and the store.
pub record Exchange (S : Type 0) : Type 0 where
  pub in_buffer_offset : ℕ
  pub out : List ℕ
  pub store : S

-- `responseHeader`, whose other fields are what the stack has.
unfoldable pub response : BinaryHeader → ℕ → ℕ → ℕ → ℕ → BinaryHeader
response junk status key_len extras_len body_len = record junk {
  magic = 129;
  status = status;
  key_len = key_len % 2 ^ 16;
  extras_len = extras_len;
  body_len = body_len % 2 ^ 32;
}

-- "Not found", with the 0 behind it
abbrev pub not_found_bytes : List ℕ
not_found_bytes = 78 ∷ 111 ∷ 116 ∷ 32 ∷ 102 ∷ 111 ∷ 117 ∷ 110 ∷ 100 ∷ 0 ∷ []

-- What the input pointer shows after `out` was written: for a datagram both pointers are the same.
unfoldable pub in_place : (ℕ → ℕ) → List ℕ → ℕ → ℕ
in_place buf out i = elim (get_elem? out i) [ none ↦ buf i | some byte ↦ byte ]

module _ {S : Type 0} where
  -- A header and what follows it are written.
  unfoldable pub send : BinaryHeader → List ℕ → Exchange S → Exchange S
  send h body x = record x { out = x.out ++ (header_bytes h ++ body) }

  -- A request that is not right is skipped.
  unfoldable pub skip : BinaryHeader → Exchange S → Exchange S
  skip h x = record x {
    in_buffer_offset = (x.in_buffer_offset + (header_size + h.body_len)) % 2 ^ 64;
  }

  -- `if (pHeader->opCode == ...)` around a reply
  unfoldable pub send_if : Bool → BinaryHeader → Exchange S → Exchange S
  send_if loud h x = if loud then send h [] x else x

module _ {S : Type 0} (store : Store S) (thread : ℕ) (junk : BinaryHeader) (memory : List ℕ → ℕ → ℕ)
    (exp_time : ℕ) where
  -- The key behind the header and the extras.
  unfoldable pub key_at : List ℕ → ℕ → BinaryHeader → List ℕ
  key_at out offset h = text (memory out) (offset + header_size + h.extras_len) h.key_len

  -- The value: the length adds the key's, in `unsigned int`, and the ticket is read as 32 bits.
  unfoldable pub value_of : List ℕ → ℕ → BinaryHeader → StorageValue
  value_of out offset h = record {
    value =
        text (memory out) (offset + header_size + h.extras_len + h.key_len)
          ((h.body_len + 2 ^ 32 - h.extras_len + h.key_len) % 2 ^ 32);
    cas_ticket = read_number (memory out) (offset + cas_offset) 4;
    flags = read_number (memory out) (offset + header_size) 4;
  }

  -- `GET` and `GETQ` (`with_key` false), `GETK` and `GETKQ` (true)
  unfoldable pub run_get : Bool → Bool → BinaryHeader → Exchange S → Outcome (Exchange S)
  run_get with_key loud h x =
      let key = text (memory x.out) (x.in_buffer_offset + header_size) h.key_len in
      let shown = if with_key then key else [] in
      if h.key_len == 0 || not (h.key_len == h.body_len)
      then ok (skip h x)
      else (store.get x.store thread key >>= λ r.
          let x' = record x { store = r.1 } in
          elim r.0 [
            | some v ↦ ok (
                send (response junk 0 (length shown) 4 (4 + length v.value + length shown))
                  (bytes_of 4 v.flags ++ shown ++ v.value) x')
            | none ↦ ok (
                if loud
                then send (response junk 1 (length shown) 0 (10 + length shown))
                    (shown ++ not_found_bytes) x'
                else x')
          ])

  unfoldable pub run_add : Bool → BinaryHeader → Exchange S → Outcome (Exchange S)
  run_add loud h x =
      if h.key_len == 0 || h.extras_len == 0
      then ok (skip h x)
      else (store.insert x.store thread (key_at x.out x.in_buffer_offset h)
            (value_of x.out x.in_buffer_offset h) exp_time
          >>= λ r.
              let x' = record x { store = r.1 } in
              ok (
                if r.0
                then send_if loud (response junk 0 0 0 0) x'
                else send (response junk 2 0 0 0) [] x'))

  -- There is no `break` behind `SET`: the case of `ADD` follows, on the header as it is then.
  unfoldable pub run_set : Bool → BinaryHeader → Exchange S → Outcome (Exchange S)
  run_set loud h x =
      if h.key_len == 0 || h.extras_len == 0
      then ok (skip h x)
      else (store.insert_or_set x.store thread (key_at x.out x.in_buffer_offset h)
            (value_of x.out x.in_buffer_offset h) exp_time
          >>= λ r.
              let x1 = send_if loud (response junk 0 0 0 0) (record x { store = r.1 }) in
              let h1 = read_header (memory x1.out) x1.in_buffer_offset in
              run_add (h1.op_code == 2) h1 x1)

  -- `REPLACE` with a ticket. The range of the locks stays 0 to 0.
  unfoldable pub replace_cas : (ℕ → ℕ) → Bool → BinaryHeader → Exchange S → Outcome (Exchange S)
  replace_cas locks loud h x =
      store.get_locked x.store thread (key_at x.out x.in_buffer_offset h) locks >>= λ r.
      let v = value_of x.out x.in_buffer_offset h in
      let ticket = (v.cas_ticket + 1) % 2 ^ 64 in
      elim r.0 [
        | some old ↦
            if old.cas_ticket == v.cas_ticket
            then (store.set_locked r.1 thread (record v { cas_ticket = ticket }) exp_time r.2 0 0
                >>= λ w. ok (
                    send_if loud (record (response junk 0 0 0 0) { cas_ticket = ticket })
                      (record x { store = w.1 })))
            else (store.unlock_element r.1 r.2 0 0 >>= λ w.
                ok (send (response junk 5 0 0 0) [] (record x { store = w.1 })))
        | none ↦ store.unlock_element r.1 r.2 0 0 >>= λ w.
            ok (send (response junk 1 0 0 0) [] (record x { store = w.1 }))
      ]

  unfoldable pub run_replace : (ℕ → ℕ) → Bool → BinaryHeader → Exchange S → Outcome (Exchange S)
  run_replace locks loud h x =
      let by_ticket = replace_cas locks loud h x in
      if h.key_len == 0 || h.extras_len == 0
      then ok (skip h x)
      else if h.cas_ticket == 0
      then (store.set x.store thread (key_at x.out x.in_buffer_offset h)
            (value_of x.out x.in_buffer_offset h) exp_time
          >>= λ r.
              let x' = record x { store = r.1 } in
              ok (
                if r.0
                then send_if loud (response junk 0 0 0 0) x'
                else send (response junk 1 0 0 0) [] x'))
      else by_ticket

  unfoldable pub run_delete : Bool → BinaryHeader → Exchange S → Outcome (Exchange S)
  run_delete loud h x =
      if h.key_len == 0
      then ok (skip h x)
      else (store.remove x.store thread (key_at x.out x.in_buffer_offset h) >>= λ r.
          let x' = record x { store = r.1 } in
          ok (
            if r.0
            then send_if loud (response junk 0 0 0 0) x'
            else send (response junk 1 0 0 0) [] x'))

  -- `switch (pHeader->opCode)`, with the quiet forms of the commands
  unfoldable pub run_op : (ℕ → ℕ) → ℕ → BinaryHeader → Exchange S → Outcome (Exchange S)
  run_op locks op h x =
      if op == 0
      then run_get false true h x
      else if op == 9
      then run_get false false h x
      else if op == 12
      then run_get true true h x
      else if op == 13
      then run_get true false h x
      else if op == 1
      then run_set true h x
      else if op == 17
      then run_set false h x
      else if op == 2
      then run_add true h x
      else if op == 18
      then run_add false h x
      else if op == 3
      then run_replace locks true h x
      else if op == 19
      then run_replace locks false h x
      else if op == 4
      then run_delete true h x
      else if op == 20
      then run_delete false h x
      else if op == 10
      then ok (send (response junk 0 0 0 0) [] x)
      else ok x

  -- `processBinaryRequest`
  unfoldable pub process_binary_request : (ℕ → ℕ) → Exchange S → Outcome (Exchange S)
  process_binary_request locks x =
      let h = read_header (memory x.out) x.in_buffer_offset in
      if h.magic == 128 then run_op locks h.op_code h x else ok (skip h x)
