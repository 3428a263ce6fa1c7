-- ===== src/Request/Waits.antt =====
-- What `processRequest` of src/RequestProcessor.cpp leaves in the session, where it served the
-- request and where it waits for more bytes.
use yamemcached.Base.{
  subst, leb→le, ◌-◌, lt→ltb, ℕ, zero, suc, ◌+◌, ◌%◌, ◌^◌, ◌≤◌, ◌<◌, ◌≡◌, refl, sym, ◌∙◌, Bool,
  true, false, none, some, Outcome, ok, abort, fault, spin, ◌>>=◌, ◌==◌, ltb, leb, length, arith,
  Bool-cases, inl, inr, not, ◌&&◌, ◌||◌,
}
use yamemcached.Request.Info.{ParsingState, ready_state, parsing_header, parsing_data, done_state}
use yamemcached.Request.Matcher.{Matcher}
use yamemcached.Request.Store.{Store}
use yamemcached.Request.Out.{sub_size}
use yamemcached.Request.Header.{Parsed, parse_memcached_header}
use yamemcached.Request.Process.{
  Request, Step, returns, continues, step, step_data, step_header, step_ready, header_done,
  run_request, run_command, rounds, process_request,
}
use yamemcached.Request.Ahead.{Ahead, reached, cut, parse_memcached_header-Ahead}

-- A request whose data is parsed has a header.
abbrev pub HasHeader : ParsingState → ℕ → Type 0
HasHeader parsing_data len = 1 ≤ len
HasHeader _ len = Unit

module _ {S : Type 0} where
  pub record Served (in_bytes : ℕ) (q q' : Request S) : Type 0 where
    pub done : q'.info.state ≡ done_state
    pub header : 1 ≤ q'.cursor.header_len
    pub enough :
        q'.cursor.data_len
        ≤ sub_size (sub_size in_bytes q.cursor.in_buffer_offset) q'.cursor.header_len
    pub moved :
        q'.cursor.in_buffer_offset
        ≡ (q.cursor.in_buffer_offset + q'.cursor.data_len + q'.cursor.header_len) % 2 ^ 64

  pub record Waits (q q' : Request S) : Type 0 where
    pub out : q'.out ≡ q.out
    pub store : q'.store ≡ q.store
    pub offset : q'.cursor.in_buffer_offset ≡ q.cursor.in_buffer_offset
    pub not_done : q'.info.state ≡ done_state → ⊥
    pub header : HasHeader q'.info.state q'.cursor.header_len

  record Kept (q q' : Request S) : Type 0 where
    out : q'.out ≡ q.out
    store : q'.store ≡ q.store
    offset : q'.cursor.in_buffer_offset ≡ q.cursor.in_buffer_offset
    header : HasHeader q'.info.state q'.cursor.header_len

  pub data Finished (in_bytes : ℕ) (q : Request S) : Outcome (Bool × Request S) → Type 0 where
    served : (q' : Request S) → Served in_bytes q q' → Finished in_bytes q (ok (true, q'))
    waits : (q' : Request S) → Waits q q' → Finished in_bytes q (ok (false, q'))
    aborted : Finished in_bytes q abort
    faulted : Finished in_bytes q fault
    spun : Finished in_bytes q spin

  data Stepped (in_bytes : ℕ) (q : Request S) : Outcome (Step S) → Type 0 where
    served : (q' : Request S) → Served in_bytes q q' → Stepped in_bytes q (ok (returns true q'))
    waits : (q' : Request S) → Waits q q' → Stepped in_bytes q (ok (returns false q'))
    went : (q' : Request S) → Kept q q' → Stepped in_bytes q (ok (continues q'))
    aborted : Stepped in_bytes q abort
    faulted : Stepped in_bytes q fault
    spun : Stepped in_bytes q spin

  Finished-Kept :
      (in_bytes : ℕ) (q q' : Request S) {m : Outcome (Bool × Request S)}
      → Kept q q'
      → Finished in_bytes q' m
      → Finished in_bytes q m
  Finished-Kept in_bytes q q' k (Finished.served r s) = Finished.served r (record {
    done = s.done;
    header = s.header;
    enough = rw (sym k.offset) s.enough;
    moved = rw (sym k.offset) s.moved;
  })
  Finished-Kept in_bytes q q' k (Finished.waits r w) = Finished.waits r (record {
    out = w.out ∙ k.out;
    store = w.store ∙ k.store;
    offset = w.offset ∙ k.offset;
    not_done = w.not_done;
    header = w.header;
  })
  Finished-Kept in_bytes q q' k Finished.aborted = Finished.aborted
  Finished-Kept in_bytes q q' k Finished.faulted = Finished.faulted
  Finished-Kept in_bytes q q' k Finished.spun = Finished.spun

  Stepped-bind :
      {A : Type 0} (in_bytes : ℕ) (q : Request S) (m : Outcome A) (f : A → Outcome (Step S))
      → ((a : A) → Stepped in_bytes q (f a))
      → Stepped in_bytes q (m >>= f)
  Stepped-bind in_bytes q (ok a) f r = r a
  Stepped-bind in_bytes q abort f r = Stepped.aborted
  Stepped-bind in_bytes q fault f r = Stepped.faulted
  Stepped-bind in_bytes q spin f r = Stepped.spun

  header_found :
      (in_bytes : ℕ) (q : Request S)
      → in_bytes < 2 ^ 63
      → q.cursor.in_buffer_offset < in_bytes
      → q.info.state ≡ parsing_header
      → (m : Parsed) → Ahead q.cursor.in_buffer_offset in_bytes q.info.state m
      → Stepped in_bytes q (
          m >>= λ r. elim r.0 [
            | none ↦ ok (returns false (record q { info = r.1 }))
            | some end ↦ ok (continues (header_done q r.1 end))
          ])
  unfolding header_done
  header_found in_bytes q small inside at _ (reached end info ahead near same) =
      Stepped.went _ (record { out = refl; store = refl; offset = refl; header = omega arith })
  header_found in_bytes q small inside at _ (cut info same) = Stepped.waits _ (record {
    out = refl;
    store = refl;
    offset = refl;
    not_done = λ e. cc;
    header = subst (λ (st : ParsingState). HasHeader st q.cursor.header_len) (sym (same ∙ at)) tt;
  })
  header_found in_bytes q small inside at _ Ahead.aborted = Stepped.aborted
  header_found in_bytes q small inside at _ Ahead.faulted = Stepped.faulted
  header_found in_bytes q small inside at _ Ahead.spun = Stepped.spun

module _ {S : Type 0} (store : Store S) (thread : ℕ) (junk : ℕ → ℕ) (matcher : Matcher)
    (buf : ℕ → ℕ) (in_bytes : ℕ) where
  run_request-Stepped :
      (q : Request S)
      → HasHeader parsing_data q.cursor.header_len
      → q.cursor.data_len
        ≤ sub_size (sub_size in_bytes q.cursor.in_buffer_offset) q.cursor.header_len
      → Stepped in_bytes q (run_request store thread junk buf q)
  unfolding run_request
  run_request-Stepped q header enough =
      elim (Bool-cases (
        not (q.cursor.data_len == 0)
        && (not (buf (q.cursor.data_offset + q.cursor.data_len - 2) == 13)
            || not (buf (q.cursor.data_offset + q.cursor.data_len - 1) == 10)))) [
              | inl bad ↦ rw bad Stepped.aborted
              | inr good ↦ rw good (
                  Stepped-bind in_bytes q
                    (run_command store thread junk buf q.info q.info.request_type q.store q.out) _
                    (λ r. elim (Bool-cases (ltb (length r.0.bytes) r.0.size)) [
                      | inl fits ↦ rw fits (
                          Stepped.served _ (record {
                            done = refl;
                            header = header;
                            enough = enough;
                            moved = refl;
                          }))
                      | inr over ↦ rw over Stepped.faulted
                    ]))
            ]

  step-Stepped :
      (q : Request S) (st : ParsingState)
      → in_bytes < 2 ^ 63
      → q.cursor.in_buffer_offset < in_bytes
      → q.info.state ≡ st
      → HasHeader st q.cursor.header_len
      → Stepped in_bytes q (step store thread junk matcher buf in_bytes q st)
  unfolding step step_ready step_header step_data
  step-Stepped q ready_state small inside at header =
      Stepped.went _ (record { out = refl; store = refl; offset = refl; header = tt })
  step-Stepped q done_state small inside at header =
      Stepped.went _ (record { out = refl; store = refl; offset = refl; header = tt })
  step-Stepped q parsing_header small inside at header = rw (lt→ltb _ _ inside) (
      header_found in_bytes q small inside at
        (parse_memcached_header matcher buf q.cursor.in_buffer_offset in_bytes q.info)
        (parse_memcached_header-Ahead matcher buf q.cursor.in_buffer_offset in_bytes q.info
          (omega arith)))
  step-Stepped q parsing_data small inside at header =
      elim (Bool-cases (
        leb q.cursor.data_len
          (sub_size (sub_size in_bytes q.cursor.in_buffer_offset) q.cursor.header_len))) [
            | inl there ↦ rw there (run_request-Stepped q header (leb→le _ _ there))
            | inr missing ↦ rw missing (
                Stepped.waits _ (record {
                  out = refl;
                  store = refl;
                  offset = refl;
                  not_done = λ e. cc;
                  header =
                      subst (λ (st : ParsingState). HasHeader st q.cursor.header_len) (sym at)
                        header;
                }))
          ]

  next_Finished :
      (rounds_left : ℕ) (q : Request S) (m : Outcome (Step S))
      → Stepped in_bytes q m
      → ((q' : Request S)
          → Kept q q'
          → Finished in_bytes q' (rounds store thread junk rounds_left matcher buf in_bytes q'))
      → Finished in_bytes q (
          m >>= λ r. elim r [
            | returns b q' ↦ ok (b, q')
            | continues q' ↦ rounds store thread junk rounds_left matcher buf in_bytes q'
          ])
  next_Finished n q _ (Stepped.served q' s) on = Finished.served q' s
  next_Finished n q _ (Stepped.waits q' w) on = Finished.waits q' w
  next_Finished n q _ (Stepped.went q' k) on = Finished-Kept in_bytes q q' k (on q' k)
  next_Finished n q _ Stepped.aborted on = Finished.aborted
  next_Finished n q _ Stepped.faulted on = Finished.faulted
  next_Finished n q _ Stepped.spun on = Finished.spun

  rounds-Finished :
      (n : ℕ) (q : Request S)
      → in_bytes < 2 ^ 63
      → q.cursor.in_buffer_offset < in_bytes
      → HasHeader q.info.state q.cursor.header_len
      → Finished in_bytes q (rounds store thread junk n matcher buf in_bytes q)
  unfolding rounds
  rounds-Finished zero q small inside header = Finished.spun
  rounds-Finished (suc n) q small inside header =
      next_Finished n q _ (step-Stepped q q.info.state small inside refl header)
        (λ q' k. rounds-Finished n q' small (rw k.offset inside) k.header)

  -- If a byte is there, fewer than 2^63 are, and a request whose data is parsed has a header,
  -- processRequest that waits for more has left the output, the store and the offset and is not
  -- done, and one that served the request is done and has moved the offset by the header and the
  -- data.
  pub process_request-Finished :
      (q : Request S)
      → in_bytes < 2 ^ 63
      → q.cursor.in_buffer_offset < in_bytes
      → HasHeader q.info.state q.cursor.header_len
      → Finished in_bytes q (process_request store thread junk matcher buf in_bytes q)
  unfolding process_request
  process_request-Finished q small inside header = rounds-Finished 4 q small inside header
