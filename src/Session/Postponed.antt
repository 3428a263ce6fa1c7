-- ===== src/Session/Postponed.antt =====
-- What becomes of a read that src/Session.cpp postpones.
use yamemcached.Base.{
  ℕ, ◌≡◌, refl, sym, ap, ◌∙◌, Bool, true, false, ok, not, ◌||◌, if◌then◌else◌, arith, Bool-cases,
  inl, inr, bit_or,
}
use yamemcached.Request.Matcher.{Matcher}
use yamemcached.Request.Store.{Store}
use yamemcached.Session.State.{
  Session, SessionState, reading_request, writing_reply, writing_with_pending_read, SessionResult,
  success, failure, postponed, Socket,
}
use yamemcached.Session.Output.{
  SendEnd, all_sent, sent_none, send_blocked, send_error, send_replies, after_sending, write_out,
}
use yamemcached.Session.Process.{
  Conn, has_in, has_out, on_output, note_postponed, then_output, process,
}

after_sending-flags :
    (end : SendEnd) (done : SessionResult) (s : Session)
    → (after_sending end done s).1.postponed_epoll_flags ≡ s.postponed_epoll_flags
unfolding after_sending
after_sending-flags all_sent done s = refl
after_sending-flags sent_none done s = refl
after_sending-flags send_blocked done s = refl
after_sending-flags send_error done s = refl

write_out-flags :
    (done : SessionResult) (s : Session) (socket : Socket)
    → (write_out done s socket).1.postponed_epoll_flags ≡ s.postponed_epoll_flags
unfolding write_out
write_out-flags done s socket =
    let (end, last, sent, left) = send_replies socket.sendings s.out.bytes s.out_buffer_offset in
    after_sending-flags end done (record s { out_buffer_offset = last })

module _ {S : Type 0} where
  on_output-flags :
      (res : SessionResult) (c : Conn S) (st : SessionState)
      → (on_output res c st).1.session.postponed_epoll_flags ≡ c.session.postponed_epoll_flags
  unfolding on_output
  on_output-flags res c writing_reply = write_out-flags success c.session c.socket
  on_output-flags res c writing_with_pending_read =
      write_out-flags postponed (record c.session { state = writing_reply }) c.socket
  on_output-flags postponed c SessionState.ready_state = refl
  on_output-flags postponed c reading_request = refl
  on_output-flags success c SessionState.ready_state = refl
  on_output-flags success c reading_request = refl
  on_output-flags failure c SessionState.ready_state = refl
  on_output-flags failure c reading_request = refl

  -- A postponed result is noted in the flags.
  noted_flags :
      (r : SessionResult × Conn S)
      → r.1.session.postponed_epoll_flags ≡ 0
      → (note_postponed r).0 ≡ postponed
      → (note_postponed r).1.session.postponed_epoll_flags ≡ 1
  unfolding note_postponed
  noted_flags (postponed, c) none is = ap (λ (n : ℕ). bit_or n 1) none
  noted_flags (success, c) none is = cc
  noted_flags (failure, c) none is = cc

  output_flags :
      (res : SessionResult) (c : Conn S)
      → c.session.postponed_epoll_flags ≡ 0
      → let r = note_postponed (on_output res c c.session.state) in
        r.0 ≡ postponed → r.1.session.postponed_epoll_flags ≡ 1
  output_flags res c none is =
      noted_flags (on_output res c c.session.state) (on_output-flags res c c.session.state ∙ none)
        is

  then_output-flags :
      (events : ℕ) (res : SessionResult) (c : Conn S)
      → c.session.postponed_epoll_flags ≡ 0
      → (then_output events (res, c)).0 ≡ postponed
      → (then_output events (res, c)).1.session.postponed_epoll_flags
        ≡ (if has_out events then 1 else 0)
  unfolding then_output
  then_output-flags events success c none is = elim (Bool-cases (has_out events)) [
    | inl writes ↦ rw writes (output_flags success c none (rw writes at is))
    | inr no_writes ↦ rw no_writes none
  ]
  then_output-flags events postponed c none is = elim (Bool-cases (has_out events)) [
    | inl writes ↦ rw writes (output_flags postponed c none (rw writes at is))
    | inr no_writes ↦ rw no_writes none
  ]
  then_output-flags events failure c none is =
      elim (Bool-cases (has_in events || not (has_out events))) [
        | inl ends ↦ let bad : failure ≡ postponed = rw ends at is in cc
        | inr goes ↦
            let writes : has_out events ≡ true = ground arith in
            rw (goes, writes) (output_flags failure c none (rw goes at is))
      ]

asks : (b : Bool) → has_in (if b then 1 else 0) ≡ b
asks true = refl
asks false = refl

module _ {S : Type 0} (store : Store S) (thread : ℕ) (junk : ℕ → ℕ) (matcher : Matcher) where
  -- If an event postpones the read of a session whose flags are clear, the flags ask for the read
  -- exactly where the event said that the socket can be written; elsewhere the next call of
  -- process with the flags of the session fails and changes nothing.
  pub then_output-closes :
      (events : ℕ) (res : SessionResult) (c c' : Conn S)
      → c.session.postponed_epoll_flags ≡ 0
      → then_output events (res, c) ≡ (postponed, c')
      → (has_in c'.session.postponed_epoll_flags ≡ has_out events)
        × (has_out events ≡ false
            → process store thread junk matcher c'.session.postponed_epoll_flags c'
              ≡ ok (failure, c'))
  unfolding process then_output
  then_output-closes events res c c' none e =
      let flags : c'.session.postponed_epoll_flags ≡ (if has_out events then 1 else 0) =
        ap (λ (r : SessionResult × Conn S). r.1.session.postponed_epoll_flags) (sym e)
        ∙ then_output-flags events res c none (ap (λ (r : SessionResult × Conn S). r.0) e) in
      (
        ap (λ (n : ℕ). has_in n) flags ∙ asks (has_out events),
        λ no_writes.
            let zero_flags : c'.session.postponed_epoll_flags ≡ 0 =
              flags ∙ ap (λ (b : Bool). if b then 1 else 0) no_writes in
            ap (λ (n : ℕ). process store thread junk matcher n c') zero_flags
            ∙ ap
                (λ (n : ℕ). ok (
                  failure,
                  record c' { session = record c'.session { postponed_epoll_flags = n } },
                ))
                (sym zero_flags),
      )
