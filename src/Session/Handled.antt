-- ===== src/Session/Handled.antt =====
-- What src/Session.cpp does with the bytes that it has read keeps the invariant.
use yamemcached.Base.{
  ==_iff, ℕ, suc, ◌<◌, ◌≡◌, refl, sym, ap, ◌∙◌, subst, Bool, List, [], length, ok, ◌>>=◌, ltb, ◌==◌,
  not, ◌&&◌, if◌then◌else◌, arith, Each, each_ok, each_abort, Each-bind, Each-if,
}
use yamemcached.Request.Info.{reset}
use yamemcached.Request.Matcher.{Matcher}
use yamemcached.Request.Store.{Store}
use yamemcached.Request.Out.{Out}
use yamemcached.Request.Waits.{HasHeader}
use yamemcached.Session.State.{
  Session, no_cursor, SessionState, reading_request, SessionResult, success,
}
use yamemcached.Session.Process.{Conn, is_done, move_leftovers, tidy, reply_now, handle_input}
use yamemcached.Session.Reading.{Fits, IsRead}
use yamemcached.Session.Served.{Ended, serve-Ended}
use yamemcached.Session.Flow.{
  Flow, ready, reading, writing, holding, IsSession, IsWriting, reply_now-IsSession,
}

-- What is left of the input buffer fits it, and its request is parsed anew.
record Tidied (s s' : Session) : Type 0 where
  fits : Fits s'
  header : HasHeader s'.request_info.state s'.cursor.header_len
  offset : s'.out_buffer_offset ≡ s.out_buffer_offset

leftovers : (s : Session) → Fits s → Tidied s (move_leftovers s)
unfolding move_leftovers
leftovers s f = record {
  fits = record { inside = omega (arith, f.inside); small = f.small };
  header = tt;
  offset = refl;
}

emptied :
    (s : Session)
    → Fits s
    → Tidied s
        (record s { cursor = no_cursor; in_buffer_bytes = 0; request_info = reset s.request_info })
emptied s f = record {
  fits = record { inside = omega arith; small = f.small };
  header = tt;
  offset = refl;
}

tidy-Tidied : (s : Session) → Fits s → Each (Tidied s) (tidy s)
unfolding tidy
tidy-Tidied s f =
    Each-if (ltb s.cursor.in_buffer_offset s.in_buffer_bytes && not (is_done s.request_info.state))
      (λ more. each_ok (move_leftovers s) (leftovers s f))
      (λ over. Each-if _ (λ all. each_ok _ (emptied s f)) (λ past. each_abort))

-- A session that writes has something to write.
pub left_to_write :
    {st : SessionState} {offset : ℕ} {bytes : List ℕ}
    → IsWriting st
    → Flow st offset bytes
    → offset < length bytes
left_to_write w ready = elim w [ ]
left_to_write w reading = elim w [ ]
left_to_write w (writing h) = h
left_to_write w (holding h) = h

-- A session that reads has sent all its replies.
pub data IsReading : SessionState → Type 0 where
  is_ready : IsReading SessionState.ready_state
  reads : IsReading reading_request

pub none_left :
    {st : SessionState} {offset : ℕ} {bytes : List ℕ}
    → IsReading st
    → Flow st offset bytes
    → (offset ≡ 0) × (bytes ≡ [])
none_left r Flow.ready = (refl, refl)
none_left r reading = (refl, refl)
none_left r (writing h) = elim r [ ]
none_left r (holding h) = elim r [ ]

Flow-reading :
    (offset : ℕ) (bytes : List ℕ) → offset ≡ 0 → bytes ≡ [] → Flow reading_request offset bytes
Flow-reading offset bytes e e' = rw (e, e') reading

pub read_on :
    (s : Session)
    → s.out_buffer_offset ≡ 0
    → s.out.bytes ≡ []
    → Fits s
    → HasHeader s.request_info.state s.cursor.header_len
    → IsSession (record s { state = reading_request })
read_on s at none f header = record {
  flow = Flow-reading s.out_buffer_offset s.out.bytes at none;
  fits = record { inside = f.inside; small = f.small };
  header = header;
}

Fits-Ended : (s s' : Session) (count count' : ℕ) → Fits s → Ended s count count' s' → Fits s'
Fits-Ended s s' count count' f e =
    let bytes = ap (λ (z : Session). z.in_buffer_bytes) e.same in
    let size = ap (λ (z : Session). z.in_buffer_size) e.same in
    record { inside = rw (bytes, size) f.inside; small = rw size f.small }

module _ {S : Type 0} where
  abbrev pub Kept : SessionResult × Conn S → Type 0
  Kept r = IsSession r.1.session

  after_serving :
      (read_aborted : Bool) (c : Conn S)
      → IsSession c.session
      → IsReading c.session.state
      → (r : ℕ × Session × S) → Ended c.session 0 r.0 r.1
      → Each Kept (
          if r.0 == 0
          then ok
              (success, record c { session = record r.1 { state = reading_request }; store = r.2 })
          else (tidy r.1 >>= λ s'.
              let (res, s'', socket) = reply_now read_aborted s' c.socket in
              ok (res, record { session = s''; store = r.2; socket = socket })))
  after_serving read_aborted c i reads_now (count, s, db) e =
      let fits = Fits-Ended c.session s 0 count i.fits e in
      let (at, none) = none_left reads_now i.flow in
      let offset : s.out_buffer_offset ≡ 0 =
        ap (λ (z : Session). z.out_buffer_offset) e.same ∙ at in
      Each-if (count == 0)
        (λ zero_served.
          let out : s.out.bytes ≡ [] =
            ap (λ (o : Out). o.bytes) (e.none_served ((==_iff count 0).0 zero_served)) ∙ none in
          each_ok (success, record c { session = record s { state = reading_request }; store = db })
            (read_on s offset out fits e.header))
        (λ served. Each-bind (tidy-Tidied s fits) _ (λ s' t.
          each_ok _
            (reply_now-IsSession read_aborted s' c.socket (t.offset ∙ offset) t.fits t.header)))

module _ {S : Type 0} (store : Store S) (thread : ℕ) (junk : ℕ → ℕ) (matcher : Matcher) where
  pub handle_input-Kept :
      (read_aborted : Bool) (c : Conn S)
      → IsSession c.session
      → IsReading c.session.state
      → Each Kept (handle_input store thread junk matcher read_aborted c)
  unfolding handle_input
  handle_input-Kept read_aborted c i reads_now =
      Each-bind
        (serve-Ended store thread junk matcher (suc c.session.in_buffer_bytes) c.session c.store 0
          (omega (arith, i.fits.inside, i.fits.small)) i.header)
        _ (after_serving read_aborted c i reads_now)

pub IsSession-IsRead : (s s' : Session) → IsSession s → IsRead s s' → IsSession s'
IsSession-IsRead s s' i r =
    let moved : IsSession (record s {
      in_buffer = s'.in_buffer;
      in_buffer_bytes = s'.in_buffer_bytes;
      in_buffer_size = s'.in_buffer_size;
    }) =
      record {
        flow = i.flow;
        fits = record { inside = r.fits.inside; small = r.fits.small };
        header = i.header;
      } in
    subst IsSession (sym r.same) moved

pub IsReading-IsRead : (s s' : Session) → IsRead s s' → IsReading s.state → IsReading s'.state
IsReading-IsRead s s' r reads_now =
    subst IsReading (sym (ap (λ (z : Session). z.state) r.same)) reads_now
