-- ===== src/Binary/Tests.antt =====
-- The theorems on the binary protocol of src/YAMBinaryProtocolProcessor.cpp at concrete inputs.
use yamemcached.Base.{
  ℕ, ◌<◌, ◌≡◌, refl, true, false, Option, none, some, List, [], ◌∷◌, ◌++◌, length, ok, ok-injective,
  subst, ap, sym, ◌∙◌, ◌==◌, if◌then◌else◌, arith,
}
use yamemcached.Request.Info.{StorageValue}
use yamemcached.Request.Store.{table_store}
use yamemcached.Request.Tests.{text_keys, same_text, small_table, hello}
use yamemcached.Request.Runs.{
  stocked, Chain-stocked, CanTouch-stocked, Chain-small_table, CanTake-small_table,
}
use yamemcached.Table.State.{Table}
use yamemcached.Table.Methods.{get}
use yamemcached.Table.Lookup.{Chain, element_of, get-found}
use yamemcached.Request.Out.{text}
use yamemcached.Binary.Header.{BinaryHeader, read_header, header_bytes, read_number, bytes_of}
use yamemcached.Binary.Commands.{
  Exchange, in_place, response, run_set, process_binary_request, run_op, run_get, send, key_at,
  value_of,
}
use yamemcached.Binary.Frames.{Adds}
use yamemcached.Binary.Answers.{IsShort}
use yamemcached.Binary.Whole.{process_binary_request-Adds}
use yamemcached.Binary.Quiet.{run_set-exists}

-- A GET of key "k".
abbrev get_request : BinaryHeader
get_request = record {
  magic = 128;
  op_code = 0;
  key_len = 1;
  extras_len = 0;
  data_type = 0;
  status = 0;
  body_len = 1;
  opaque = 0;
  cas_ticket = 0;
}

abbrev get_bytes : ℕ → ℕ
get_bytes i =
    if i == 0 then 128 else if i == 2 then 1 else if i == 8 then 1 else if i == 24 then 107 else 0

-- The GET in one buffer for the request and the reply, which starts at its beginning.
abbrev start : Exchange (Table (List ℕ) StorageValue)
start = record { in_buffer_offset = 0; out = []; store = stocked }

got : (u : Table (List ℕ) StorageValue) × (get stocked 0 (107 ∷ []) ≡ ok (some hello, u))
got =
    let (u, ran, _) =
      get-found stocked 0 (107 ∷ []) 0 (omega arith) Chain-stocked CanTouch-stocked in
    (u, ran)

abbrev answered : Exchange (Table (List ℕ) StorageValue)
answered = record start {
  out =
      129 ∷ 0 ∷ 0 ∷ 0 ∷ 4 ∷ 0 ∷ 0 ∷ 0 ∷ 6 ∷ 0 ∷ 0 ∷ 0 ∷ 0 ∷ 0 ∷ 0 ∷ 0 ∷ 0 ∷ 0 ∷ 0 ∷ 0 ∷ 0 ∷ 0 ∷ 0
      ∷ 0 ∷ 12 ∷ 0 ∷ 0 ∷ 0 ∷ 104 ∷ 105 ∷ [];
  store = got.0;
}

process_get_run :
    process_binary_request table_store 0 get_request (in_place get_bytes) 0 (λ _. 0) start
    ≡ ok answered
unfolding process_binary_request read_header read_number run_op run_get text response send
    header_bytes bytes_of in_place
process_get_run = rw (got.1) refl

stocked-IsShort : IsShort table_store stocked 0 (107 ∷ [])
stocked-IsShort = record { short = λ v s' e. short_value v s' e }
  where
    short_value :
        (v : StorageValue) (s' : Table (List ℕ) StorageValue)
        → get stocked 0 (107 ∷ []) ≡ ok (some v, s')
        → length v.value < 2147483648
    short_value v s' e =
        let same : hello ≡ v =
          ap
            (λ (r : Option StorageValue × Table (List ℕ) StorageValue). elim r.0 [
              | none ↦ hello
              | some w ↦ w
            ])
            (ok-injective (sym (got.1) ∙ e)) in
        subst (λ (w : StorageValue). length w.value < 2147483648) same (omega arith)

process_binary_request-Adds_example : Adds start answered
unfolding in_place read_header read_number text
process_binary_request-Adds_example =
    process_binary_request-Adds table_store 0 get_request (in_place get_bytes) 0 (λ _. 0) start
      answered (λ i. ground arith) stocked-IsShort process_get_run

-- A SETQ of key "k" with four bytes of extras and the value "hi".
abbrev set_bytes : ℕ → ℕ
set_bytes i =
    if i == 0
    then 128
    else if i == 1
    then 17
    else if i == 2
    then 1
    else if i == 4
    then 4
    else if i == 8
    then 7
    else if i == 28
    then 107
    else if i == 29
    then 104
    else if i == 30
    then 105
    else 0

abbrev empty_start : Exchange (Table (List ℕ) StorageValue)
empty_start = record { in_buffer_offset = 0; out = []; store = small_table }

run_set-exists_example :
    (u : Table (List ℕ) StorageValue) × (run_set table_store 0 get_request
        (in_place set_bytes)
        0
        false
        (read_header (in_place set_bytes []) 0)
        empty_start
      ≡ ok (record empty_start {
        out = [] ++ header_bytes (response get_request 2 0 0 0);
        store = u;
      }))
    × Chain u (107 ∷ []) true 0
    × ((u.elements (element_of u (107 ∷ []) 0)).value
        ≡ record { value = 104 ∷ 105 ∷ 0 ∷ 0 ∷ []; cas_ticket = 0; flags = 0 })
unfolding read_header read_number in_place key_at value_of text same_text
run_set-exists_example =
    run_set-exists 0 get_request (in_place set_bytes) 0 empty_start 0 0 (omega arith) (omega arith)
      refl (omega arith) Chain-small_table CanTake-small_table (omega arith)
