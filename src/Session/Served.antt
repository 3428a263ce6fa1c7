-- ===== src/Session/Served.antt =====
-- The processing loop of src/Session.cpp, and what is done with the input buffer after it.
use yamemcached.Base.{
  dec_lt, lt→ltb, ltb_of_le, ◌⊎◌, ℕ, zero, suc, ◌+◌, ◌^◌, ◌≤◌, ◌<◌, ◌≡◌, refl, ap, ◌∙◌, Bool, false,
  Outcome, ok, abort, ◌>>=◌, ltb, ◌==◌, if◌then◌else◌, arith, Bool-cases, inl, inr, ◌↔◌, Each,
  each_ok, each_abort, each_fault, each_spin, Each-result, ltb→lt,
}
use yamemcached.Request.Info.{ParsingState, ready_state, parsing_header, parsing_data, done_state}
use yamemcached.Request.Matcher.{Matcher}
use yamemcached.Request.Store.{Store}
use yamemcached.Request.Process.{Request}
use yamemcached.Request.Waits.{HasHeader, Waits, Finished, process_request-Finished}
use yamemcached.Session.State.{Session}
use yamemcached.Session.Process.{serve, request_of, put_request, tidy, is_done}

-- The loop that began with `s` and `count` requests ended with `s'` and `count'` of them.
pub record Ended (s : Session) (count count' : ℕ) (s' : Session) : Type 0 where
  pub more : count ≤ count'
  pub same : s' ≡ record s { request_info = s'.request_info; cursor = s'.cursor; out = s'.out }
  pub header : HasHeader s'.request_info.state s'.cursor.header_len
  pub none_served : count' ≡ count → s'.out ≡ s.out
  pub waiting :
      s'.cursor.in_buffer_offset < s.in_buffer_bytes → s'.request_info.state ≡ done_state → ⊥
  pub over :
      s.in_buffer_bytes ≤ s'.cursor.in_buffer_offset
      → (count' ≡ count) × (s'.request_info.state ≡ s.request_info.state)
        ⊎ (s'.request_info.state ≡ done_state)

HasHeader-done : (st : ParsingState) (len : ℕ) → st ≡ done_state → HasHeader st len
HasHeader-done ready_state len e = tt
HasHeader-done parsing_header len e = tt
HasHeader-done parsing_data len e = cc
HasHeader-done done_state len e = tt

module _ {S : Type 0} (store : Store S) (thread : ℕ) (junk : ℕ → ℕ) (matcher : Matcher) where
  -- One request more before the rest of the loop.
  Ended-again :
      (s : Session) (q : Request S) (count : ℕ) (r : ℕ × Session × S)
      → q.info.state ≡ done_state
      → Ended (put_request s q) (count + 1) r.0 r.1
      → Ended s count r.0 r.1
  Ended-again s q count r done e = record {
    more = omega (arith, e.more);
    same = e.same;
    header = e.header;
    none_served = λ none. absurd (omega (arith, e.more));
    waiting = e.waiting;
    over =
        λ past. elim (e.over past) [ inl (same, kept) ↦ inr (kept ∙ done) | inr kept ↦ inr kept ];
  }

  Ended-Waits :
      (s : Session) (q : Request S) (db : S) (count : ℕ)
      → s.cursor.in_buffer_offset < s.in_buffer_bytes
      → Waits (request_of s db) q
      → Ended s count count (put_request s q)
  Ended-Waits s q db count inside w = record {
    more = omega arith;
    same = refl;
    header = w.header;
    none_served = λ none. w.out;
    waiting = λ there done. w.not_done done;
    over = λ past. absurd (omega (arith, w.offset));
  }

  Each-Ended :
      (s : Session) (q : Request S) (count : ℕ) {m : Outcome (ℕ × Session × S)}
      → q.info.state ≡ done_state
      → Each (λ r. Ended (put_request s q) (count + 1) r.0 r.1) m
      → Each (λ r. Ended s count r.0 r.1) m
  Each-Ended s q count done (each_ok r e) = each_ok r (Ended-again s q count r done e)
  Each-Ended s q count done each_abort = each_abort
  Each-Ended s q count done each_fault = each_fault
  Each-Ended s q count done each_spin = each_spin

  after_request :
      (rounds : ℕ) (s : Session) (db : S) (count : ℕ) (m : Outcome (Bool × Request S))
      → s.cursor.in_buffer_offset < s.in_buffer_bytes
      → Finished s.in_buffer_bytes (request_of s db) m
      → ((q : Request S)
          → HasHeader q.info.state q.cursor.header_len
          → Each
              (λ r. Ended (put_request s q) (count + 1) r.0 r.1)
              (serve store thread junk matcher rounds (put_request s q) q.store (count + 1)))
      → Each
          (λ r. Ended s count r.0 r.1)
          (m >>= λ r.
            let rest =
              serve store thread junk matcher rounds (put_request s r.1) r.1.store (count + 1) in
            if r.0 then rest else ok (count, put_request s r.1, r.1.store))
  after_request rounds s db count _ inside (Finished.served q v) on =
      Each-Ended s q count v.done (on q (HasHeader-done _ _ v.done))
  after_request rounds s db count _ inside (Finished.waits q w) on =
      each_ok _ (Ended-Waits s q db count inside w)
  after_request rounds s db count _ inside Finished.aborted on = each_abort
  after_request rounds s db count _ inside Finished.faulted on = each_fault
  after_request rounds s db count _ inside Finished.spun on = each_spin

  pub serve-Ended :
      (rounds : ℕ) (s : Session) (db : S) (count : ℕ)
      → s.in_buffer_bytes < 2 ^ 63
      → HasHeader s.request_info.state s.cursor.header_len
      → Each (λ r. Ended s count r.0 r.1) (serve store thread junk matcher rounds s db count)
  unfolding serve
  serve-Ended zero s db count small header = each_spin
  serve-Ended (suc rounds) s db count small header =
      elim (Bool-cases (ltb s.cursor.in_buffer_offset s.in_buffer_bytes)) [
        | inl there ↦
            let inside = ltb→lt _ _ there in
            rw there (
              after_request rounds s db count _ inside
                (process_request-Finished store thread junk matcher s.in_buffer s.in_buffer_bytes
                  (request_of s db) small inside header)
                (λ q h. serve-Ended rounds (put_request s q) q.store (count + 1) small h))
        | inr none ↦ rw none (
            each_ok _ (record {
              more = omega arith;
              same = refl;
              header = header;
              none_served = λ e. refl;
              waiting = λ there. absurd (ground arith);
              over = λ past. inl (refl, refl);
            }))
      ]

not_done : (st : ParsingState) → (st ≡ done_state → ⊥) → is_done st ≡ false
not_done ready_state ne = refl
not_done parsing_header ne = refl
not_done parsing_data ne = refl
not_done done_state ne = absurd (ne refl)

tidy-inside :
    (s : Session)
    → s.cursor.in_buffer_offset < s.in_buffer_bytes
    → (s.request_info.state ≡ done_state → ⊥)
    → (tidy s ≡ abort) ↔ (s.in_buffer_bytes < s.cursor.in_buffer_offset)
unfolding tidy
tidy-inside s inside ne = rw (lt→ltb _ _ inside, not_done _ ne) (λ e. cc, λ h. absurd (omega arith))

tidy-over :
    (s : Session)
    → s.in_buffer_bytes ≤ s.cursor.in_buffer_offset
    → s.request_info.state ≡ done_state
    → (tidy s ≡ abort) ↔ (s.in_buffer_bytes < s.cursor.in_buffer_offset)
unfolding tidy
tidy-over s past done =
    rw (done, ltb_of_le _ _ past)
      (elim (Bool-cases (s.cursor.in_buffer_offset == s.in_buffer_bytes)) [
        | inl same ↦ rw same (λ e. cc, λ h. absurd (ground arith))
        | inr apart ↦ rw apart (λ e. ground arith, λ h. refl)
      ])

tidy-Ended :
    (s s' : Session) (count : ℕ)
    → 0 < count
    → Ended s 0 count s'
    → (tidy s' ≡ abort) ↔ (s'.in_buffer_bytes < s'.cursor.in_buffer_offset)
tidy-Ended s s' count some_served e =
    let bytes : s'.in_buffer_bytes ≡ s.in_buffer_bytes =
      ap (λ (z : Session). z.in_buffer_bytes) e.same in
    elim (dec_lt s'.cursor.in_buffer_offset s.in_buffer_bytes) [
      | yes there ↦ tidy-inside s' (omega (arith, bytes)) (e.waiting there)
      | no past ↦ elim (e.over (omega arith)) [
        | inl (none, kept) ↦ absurd (omega arith)
        | inr done ↦ tidy-over s' (omega (arith, bytes)) done
      ]
    ]

-- If the input buffer has less than 2^63 bytes, a request whose data is parsed has a header, and
-- the loop served at least one request, what follows aborts the server exactly if the offset has
-- passed the bytes that are there.
pub tidy-serve :
    {S : Type 0} (store : Store S) (thread : ℕ) (junk : ℕ → ℕ) (matcher : Matcher) (rounds : ℕ)
    (s : Session) (db : S) (count : ℕ) (s' : Session) (db' : S)
    → s.in_buffer_bytes < 2 ^ 63
    → HasHeader s.request_info.state s.cursor.header_len
    → 0 < count
    → serve store thread junk matcher rounds s db 0 ≡ ok (count, s', db')
    → (tidy s' ≡ abort) ↔ (s'.in_buffer_bytes < s'.cursor.in_buffer_offset)
tidy-serve store thread junk matcher rounds s db count s' db' small header some_served e =
    tidy-Ended s s' count some_served (
      Each-result (count, s', db')
        (serve-Ended store thread junk matcher rounds s db 0 small header) e)
