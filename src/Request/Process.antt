-- ===== src/Request/Process.antt =====
-- `processRequest` of src/RequestProcessor.cpp: the states of a request.
use yamemcached.Base.{
  ℕ, zero, suc, ◌+◌, ◌-◌, ◌%◌, ◌^◌, Bool, true, false, not, ◌&&◌, ◌||◌, none, some, List, [], ◌∷◌,
  length, Outcome, ok, abort, spin, fault, ◌>>=◌, ◌==◌, ltb, leb, if◌then◌else◌, bit_and,
}
use yamemcached.Request.Info.{
  RequestInfo, RequestType, ParsingState, ready_state, parsing_header, parsing_data, done_state,
  StorageValue, reset,
}
use yamemcached.Request.Matcher.{Matcher}
use yamemcached.Request.Header.{parse_memcached_header, keys_of}
use yamemcached.Request.Out.{Out, sub_size, text, string_at}
use yamemcached.Request.Store.{Store}
use yamemcached.Request.Commands.{
  run_set, run_add, run_replace, run_cas, run_get, run_delete, run_stats,
}

-- The variables of the session that go by reference, but the two buffers.
pub record Cursor : Type 0 where
  pub header_offset : ℕ
  pub header_len : ℕ
  pub header_bytes_required : ℕ
  pub data_offset : ℕ
  pub data_len : ℕ
  pub data_bytes_required : ℕ
  pub in_buffer_offset : ℕ

pub record Request (S : Type 0) : Type 0 where
  pub info : RequestInfo
  pub cursor : Cursor
  pub out : Out
  pub store : S

-- What one round of `while (true)` comes to: the function returns, or there is a next round.
pub data Step (S : Type 0) : Type 0 where
  returns : Bool → Request S → Step S
  continues : Request S → Step S

-- `headerBytesRequired = 32`
unfoldable pub step_ready : {S : Type 0} → Request S → Request S
step_ready q = record q {
  cursor = record q.cursor { header_bytes_required = 32 };
  info = record q.info { state = parsing_header };
}

-- A header that was parsed to offset `end`. The data has two bytes more than its length.
unfoldable pub header_done : {S : Type 0} → Request S → RequestInfo → ℕ → Request S
header_done q info end =
    let offset = q.cursor.in_buffer_offset in
    let len = sub_size end offset in
    let expected = if info.data_len == 0 then 0 else (info.data_len + 2) % 2 ^ 64 in
    record q {
      info = record info { state = parsing_data };
      cursor = record {
        header_offset = offset;
        header_len = len;
        header_bytes_required = 0;
        data_offset = (offset + len) % 2 ^ 64;
        data_len = expected;
        data_bytes_required = expected;
        in_buffer_offset = offset;
      };
    }

unfoldable pub step_header : {S : Type 0} → Matcher → (ℕ → ℕ) → ℕ → Request S → Outcome (Step S)
step_header matcher buf in_bytes q =
    let offset = q.cursor.in_buffer_offset in
    if ltb offset in_bytes
    then (parse_memcached_header matcher buf offset in_bytes q.info >>= λ r. elim r.0 [
      | none ↦ ok (returns false (record q { info = r.1 }))
      | some end ↦ ok (continues (header_done q r.1 end))
    ])
    else ok (returns false q)

-- `requestFlags & NOREPLY`
abbrev pub is_quiet : RequestInfo → Bool
is_quiet info = not (bit_and info.request_flags 1 == 0)

-- The value of a storage command.
unfoldable pub value_at : (ℕ → ℕ) → RequestInfo → Outcome StorageValue
value_at buf info = string_at buf info.p_data_buffer info.data_len >>= λ bytes.
    ok (record { value = bytes; cas_ticket = info.cas_ticket; flags = info.flags })

unfoldable pub more_texts : (ℕ → ℕ) → List (ℕ × ℕ) → List (List ℕ)
more_texts buf [] = []
more_texts buf ((p, len) ∷ keys) = text buf p len ∷ more_texts buf keys

module _ {S : Type 0} (store : Store S) (thread : ℕ) (junk : ℕ → ℕ) where
  -- `switch (requestInfo.requestType)`
  unfoldable pub run_command : (ℕ → ℕ) → RequestInfo → RequestType → S → Out → Outcome (Out × S)
  run_command buf info RequestType.set s out =
      string_at buf info.p_key_buffer info.key_buffer_len >>= λ key.
      value_at buf info >>= λ v. run_set store thread s (is_quiet info) key v info.exp_time out
  run_command buf info RequestType.add s out =
      string_at buf info.p_key_buffer info.key_buffer_len >>= λ key.
      value_at buf info >>= λ v. run_add store thread s (is_quiet info) key v info.exp_time out
  run_command buf info RequestType.replace s out =
      string_at buf info.p_key_buffer info.key_buffer_len >>= λ key.
      value_at buf info >>= λ v. run_replace store thread s (is_quiet info) key v info.exp_time out
  run_command buf info RequestType.cas s out =
      string_at buf info.p_key_buffer info.key_buffer_len >>= λ key.
      value_at buf info >>= λ v. run_cas store thread junk s (is_quiet info) key v info.exp_time out
  run_command buf info RequestType.get s out =
      string_at buf info.p_key_buffer info.key_buffer_len >>= λ key.
      run_get store thread s (key ∷ more_texts buf (keys_of info)) out
  run_command buf info RequestType.gets s out =
      string_at buf info.p_key_buffer info.key_buffer_len >>= λ key.
      run_get store thread s (key ∷ more_texts buf (keys_of info)) out
  run_command buf info RequestType.delete s out =
      string_at buf info.p_key_buffer info.key_buffer_len >>= λ key.
      run_delete store thread s (is_quiet info) key out
  run_command buf info RequestType.stats s out = run_stats store thread s out
  run_command buf info _ s out = ok (out, s)

  -- The data is there: its end is checked, the command is run, and a 0 is put behind the output.
  unfoldable pub run_request : (ℕ → ℕ) → Request S → Outcome (Step S)
  run_request buf q =
      let c = q.cursor in
      let c' = record c {
        data_bytes_required = 0;
        in_buffer_offset = (c.in_buffer_offset + c.data_len + c.header_len) % 2 ^ 64;
      } in
      let end = c.data_offset + c.data_len in
      if not (c.data_len == 0) && (not (buf (end - 2) == 13) || not (buf (end - 1) == 10))
      then abort
      else (run_command buf q.info q.info.request_type q.store q.out >>= λ r.
          if ltb (length r.0.bytes) r.0.size
          then ok (
              returns true (record {
                info = record q.info { state = done_state };
                cursor = c';
                out = r.0;
                store = r.1;
              }))
          else fault)

  unfoldable pub step_data : (ℕ → ℕ) → ℕ → Request S → Outcome (Step S)
  step_data buf in_bytes q =
      let c = q.cursor in
      let required =
        if c.data_bytes_required == 0
        then (sub_size c.data_len in_bytes + c.in_buffer_offset) % 2 ^ 64
        else c.data_bytes_required in
      if leb c.data_len (sub_size (sub_size in_bytes c.in_buffer_offset) c.header_len)
      then run_request buf q
      else ok (returns false (record q { cursor = record c { data_bytes_required = required } }))

  -- `switch (requestInfo.state)`
  unfoldable pub step : Matcher → (ℕ → ℕ) → ℕ → Request S → ParsingState → Outcome (Step S)
  step matcher buf in_bytes q ready_state = ok (continues (step_ready q))
  step matcher buf in_bytes q parsing_header = step_header matcher buf in_bytes q
  step matcher buf in_bytes q parsing_data = step_data buf in_bytes q
  step matcher buf in_bytes q done_state = ok (continues (record q { info = reset q.info }))

  unfoldable pub rounds : ℕ → Matcher → (ℕ → ℕ) → ℕ → Request S → Outcome (Bool × Request S)
  rounds zero matcher buf in_bytes q = spin
  rounds (suc n) matcher buf in_bytes q = step matcher buf in_bytes q q.info.state >>= λ r. elim r [
    | returns b q' ↦ ok (b, q')
    | continues q' ↦ rounds n matcher buf in_bytes q'
  ]

  -- `processRequest`: no request goes through more than the four states.
  unfoldable pub process_request : Matcher → (ℕ → ℕ) → ℕ → Request S → Outcome (Bool × Request S)
  process_request matcher buf in_bytes q = rounds 4 matcher buf in_bytes q
