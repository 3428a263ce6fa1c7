-- ===== src/Session/Invariant.antt =====
-- Every event keeps the invariant of the session of src/Session.cpp.
use yamemcached.Base.{
  ℕ, ◌<◌, ◌≡◌, refl, sym, subst, List, length, ok, not, ◌||◌, if◌then◌else◌, Bool-cases, inl, inr,
  Each, each_ok, Each-bind, Each-if, Each-result,
}
use yamemcached.Request.Matcher.{Matcher}
use yamemcached.Request.Store.{Store}
use yamemcached.Session.State.{
  Session, Receipt, SessionState, reading_request, writing_reply, writing_with_pending_read,
  SessionResult, success, failure, postponed,
}
use yamemcached.Session.Input.{ReadEnd}
use yamemcached.Session.Process.{
  Conn, has_in, has_out, is_over, was_aborted, handle_input, read_input, on_input, on_output,
  note_postponed, then_output, process,
}
use yamemcached.Session.Reading.{IsRead, make_room-IsRead, read_all-IsRead}
use yamemcached.Session.Flow.{
  Flow, holding, IsSession, IsWriting, replies, holds, write_out-IsSession,
}
use yamemcached.Session.Handled.{
  IsReading, is_ready, reads, Kept, left_to_write, none_left, read_on, handle_input-Kept,
  IsSession-IsRead, IsReading-IsRead,
}

flagged :
    (s : Session) (flags : ℕ) → IsSession s → IsSession (record s { postponed_epoll_flags = flags })
flagged s flags i = record {
  flow = i.flow;
  fits = record { inside = i.fits.inside; small = i.fits.small };
  header = i.header;
}

module _ {S : Type 0} (store : Store S) (thread : ℕ) (junk : ℕ → ℕ) (matcher : Matcher) where
  after_reading :
      (c : Conn S) (s : Session)
      → IsSession s
      → IsReading s.state
      → (r : ReadEnd × Session × List Receipt) → IsRead s r.1
      → Each Kept (
          let c' = record c { session = r.1; socket = record c.socket { receipts = r.2 } } in
          if is_over r.0 r.1
          then ok (failure, c')
          else handle_input store thread junk matcher (was_aborted r.0) c')
  after_reading c s i reads_now (end, s', left) r =
      let c' = record c { session = s'; socket = record c.socket { receipts = left } } in
      Each-if (is_over end s') (λ over. each_ok (failure, c') (IsSession-IsRead s s' i r))
        (λ go_on.
          handle_input-Kept store thread junk matcher (was_aborted end) c'
            (IsSession-IsRead s s' i r) (IsReading-IsRead s s' r reads_now))

  read_input-Kept :
      (c : Conn S)
      → IsSession c.session
      → IsReading c.session.state
      → Each Kept (read_input store thread junk matcher c)
  unfolding read_input
  read_input-Kept c i reads_now = Each-bind (make_room-IsRead c.session i.fits) _ (λ s r.
      Each-bind (read_all-IsRead c.socket.receipts s 0 r.fits) _ (
        after_reading c s (IsSession-IsRead c.session s i r)
          (IsReading-IsRead c.session s r reads_now)))

  on_input-Kept :
      (c : Conn S) (st : SessionState)
      → c.session.state ≡ st
      → IsSession c.session
      → Each Kept (on_input store thread junk matcher c st)
  unfolding on_input
  on_input-Kept c SessionState.ready_state e i =
      read_input-Kept c i (subst IsReading (sym e) is_ready)
  on_input-Kept c reading_request e i = read_input-Kept c i (subst IsReading (sym e) reads)
  on_input-Kept c writing_reply e i = each_ok _ (record {
    flow = holding (
        left_to_write replies (
          subst (λ (st : SessionState). Flow st c.session.out_buffer_offset c.session.out.bytes) e
            i.flow));
    fits = record { inside = i.fits.inside; small = i.fits.small };
    header = i.header;
  })
  on_input-Kept c writing_with_pending_read e i = each_ok _ i

module _ {S : Type 0} where
  to_write :
      (c : Conn S) {st : SessionState}
      → c.session.state ≡ st
      → IsWriting st
      → IsSession c.session
      → c.session.out_buffer_offset < length c.session.out.bytes
  to_write c e w i = left_to_write w (
      subst (λ (st : SessionState). Flow st c.session.out_buffer_offset c.session.out.bytes) e
        i.flow)

  reads_on :
      (c : Conn S) {st : SessionState}
      → c.session.state ≡ st
      → IsReading st
      → IsSession c.session
      → IsSession (record c.session { state = reading_request })
  reads_on c e r i =
      let (at, none) = none_left r (
        subst (λ (st : SessionState). Flow st c.session.out_buffer_offset c.session.out.bytes) e
          i.flow) in
      read_on c.session at none i.fits i.header

  on_output-Kept :
      (res : SessionResult) (c : Conn S) (st : SessionState)
      → c.session.state ≡ st
      → IsSession c.session
      → Kept (on_output res c st)
  unfolding on_output
  on_output-Kept res c writing_reply e i =
      write_out-IsSession success c.session c.socket (subst IsWriting (sym e) replies)
        (to_write c e replies i) i.fits i.header
  on_output-Kept res c writing_with_pending_read e i =
      write_out-IsSession postponed (record c.session { state = writing_reply }) c.socket replies
        (to_write c e holds i) (record { inside = i.fits.inside; small = i.fits.small }) i.header
  on_output-Kept postponed c SessionState.ready_state e i = i
  on_output-Kept postponed c reading_request e i = i
  on_output-Kept success c SessionState.ready_state e i = reads_on c e is_ready i
  on_output-Kept success c reading_request e i = reads_on c e reads i
  on_output-Kept failure c SessionState.ready_state e i = reads_on c e is_ready i
  on_output-Kept failure c reading_request e i = reads_on c e reads i

  note_postponed-Kept : (r : SessionResult × Conn S) → Kept r → Kept (note_postponed r)
  unfolding note_postponed
  note_postponed-Kept (postponed, c) i = flagged c.session _ i
  note_postponed-Kept (success, c) i = i
  note_postponed-Kept (failure, c) i = i

  output-Kept :
      (res : SessionResult) (c : Conn S)
      → IsSession c.session
      → Kept (note_postponed (on_output res c c.session.state))
  output-Kept res c i = note_postponed-Kept _ (on_output-Kept res c c.session.state refl i)

  then_output-Kept :
      (events : ℕ) (r : SessionResult × Conn S) → Kept r → Kept (then_output events r)
  unfolding then_output
  then_output-Kept events (failure, c) i =
      elim (Bool-cases (has_in events || not (has_out events))) [
        | inl ends ↦ rw ends i
        | inr goes ↦ rw goes (output-Kept failure c i)
      ]
  then_output-Kept events (success, c) i = elim (Bool-cases (has_out events)) [
    | inl writes ↦ rw writes (output-Kept success c i)
    | inr none ↦ rw none i
  ]
  then_output-Kept events (postponed, c) i = elim (Bool-cases (has_out events)) [
    | inl writes ↦ rw writes (output-Kept postponed c i)
    | inr none ↦ rw none i
  ]

module _ {S : Type 0} (store : Store S) (thread : ℕ) (junk : ℕ → ℕ) (matcher : Matcher) where
  process-Kept :
      (events : ℕ) (c : Conn S)
      → IsSession c.session
      → Each Kept (process store thread junk matcher events c)
  unfolding process
  process-Kept events c i =
      let c0 = record c { session = record c.session { postponed_epoll_flags = 0 } } in
      let i0 = flagged c.session 0 i in
      Each-if (has_in events)
        (λ reads_now.
          Each-bind (on_input-Kept store thread junk matcher c0 c0.session.state refl i0) _
            (λ r k. each_ok _ (then_output-Kept events r k)))
        (λ none.
          each_ok (then_output events (failure, c0)) (then_output-Kept events (failure, c0) i0))

  -- If the session is valid - while it reads it has no reply left, while it writes it has one,
  -- the bytes that were read fit the input buffer, and a request whose data is parsed has a
  -- header - then it is valid after any event that process returns from.
  pub process-IsSession :
      (events : ℕ) (c c' : Conn S) (res : SessionResult)
      → IsSession c.session
      → process store thread junk matcher events c ≡ ok (res, c')
      → IsSession c'.session
  process-IsSession events c c' res i e = Each-result (res, c') (process-Kept events c i) e
