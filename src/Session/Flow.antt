-- ===== src/Session/Flow.antt =====
-- The invariant of the session of src/Session.cpp: what its state says of its buffers.
use yamemcached.Base.{
  ℕ, ◌<◌, ◌≡◌, refl, Bool, true, false, List, [], length, ◌==◌, if◌then◌else◌, arith, Bool-cases,
  inl, inr,
}
use yamemcached.Request.Out.{sub_size}
use yamemcached.Request.Waits.{HasHeader}
use yamemcached.Session.State.{
  Session, SessionState, reading_request, writing_reply, writing_with_pending_read, SessionResult,
  success, postponed, Socket,
}
use yamemcached.Session.Output.{
  SendEnd, all_sent, sent_none, send_blocked, send_error, send_replies, after_sending, write_out,
}
use yamemcached.Session.Process.{reply_now}
use yamemcached.Session.Sent.{Replies, nothing, something, send_replies-Replies}
use yamemcached.Session.Reading.{Fits}

-- While a request is read there is no reply, and while replies are written some byte is left.
pub data Flow : SessionState → ℕ → List ℕ → Type 0 where
  ready : Flow SessionState.ready_state 0 []
  reading : Flow reading_request 0 []
  writing : {offset : ℕ} {bytes : List ℕ} → offset < length bytes → Flow writing_reply offset bytes
  holding :
      {offset : ℕ} {bytes : List ℕ}
      → offset < length bytes
      → Flow writing_with_pending_read offset bytes

pub record IsSession (s : Session) : Type 0 where
  pub flow : Flow s.state s.out_buffer_offset s.out.bytes
  pub fits : Fits s
  pub header : HasHeader s.request_info.state s.cursor.header_len

-- Writing, in one of the two states.
pub data IsWriting : SessionState → Type 0 where
  replies : IsWriting writing_reply
  holds : IsWriting writing_with_pending_read

Flow-IsWriting :
    (st : SessionState) (offset : ℕ) (bytes : List ℕ)
    → IsWriting st
    → offset < length bytes
    → Flow st offset bytes
Flow-IsWriting _ offset bytes replies h = writing h
Flow-IsWriting _ offset bytes holds h = holding h

after_sending-Flow :
    (bytes : List ℕ) (offset : ℕ) (done : SessionResult) (s : Session) (end : SendEnd) (last : ℕ)
    (sent : List ℕ)
    → IsWriting s.state
    → s.out.bytes ≡ bytes
    → offset < length bytes
    → Replies bytes offset end last sent
    → let s' = (after_sending end done (record s { out_buffer_offset = last })).1 in
      Flow s'.state s'.out_buffer_offset s'.out.bytes
unfolding after_sending
after_sending-Flow bytes offset done s _ _ _ w e h nothing =
    Flow-IsWriting s.state offset s.out.bytes w (rw e h)
after_sending-Flow bytes offset done s all_sent last sent w e h (something less r) = reading
after_sending-Flow bytes offset done s sent_none last sent w e h (something less r) =
    Flow-IsWriting s.state last s.out.bytes w (rw e (r.unfinished (λ p. cc)))
after_sending-Flow bytes offset done s send_blocked last sent w e h (something less r) =
    Flow-IsWriting s.state last s.out.bytes w (rw e (r.unfinished (λ p. cc)))
after_sending-Flow bytes offset done s send_error last sent w e h (something less r) =
    Flow-IsWriting s.state last s.out.bytes w (rw e (r.unfinished (λ p. cc)))

write_out-Flow :
    (done : SessionResult) (s : Session) (socket : Socket)
    → IsWriting s.state
    → s.out_buffer_offset < length s.out.bytes
    → let s' = (write_out done s socket).1 in Flow s'.state s'.out_buffer_offset s'.out.bytes
unfolding write_out
write_out-Flow done s socket w h =
    after_sending-Flow s.out.bytes s.out_buffer_offset done s _ _ _ w refl h
      (send_replies-Replies socket.sendings s.out.bytes s.out_buffer_offset (omega arith))

-- Sending leaves the rest of the session.
after_sending-rest :
    (end : SendEnd) (done : SessionResult) (s : Session)
    → let s' = (after_sending end done s).1 in
      (s'.in_buffer_bytes ≡ s.in_buffer_bytes)
      × (s'.in_buffer_size ≡ s.in_buffer_size)
      × (s'.request_info ≡ s.request_info)
      × (s'.cursor ≡ s.cursor)
unfolding after_sending
after_sending-rest all_sent done s = (refl, refl, refl, refl)
after_sending-rest sent_none done s = (refl, refl, refl, refl)
after_sending-rest send_blocked done s = (refl, refl, refl, refl)
after_sending-rest send_error done s = (refl, refl, refl, refl)

write_out-rest :
    (done : SessionResult) (s : Session) (socket : Socket)
    → let s' = (write_out done s socket).1 in
      (s'.in_buffer_bytes ≡ s.in_buffer_bytes)
      × (s'.in_buffer_size ≡ s.in_buffer_size)
      × (s'.request_info ≡ s.request_info)
      × (s'.cursor ≡ s.cursor)
unfolding write_out
write_out-rest done s socket =
    let (end, last, sent, left) = send_replies socket.sendings s.out.bytes s.out_buffer_offset in
    after_sending-rest end done (record s { out_buffer_offset = last })

pub write_out-IsSession :
    (done : SessionResult) (s : Session) (socket : Socket)
    → IsWriting s.state
    → s.out_buffer_offset < length s.out.bytes
    → Fits s
    → HasHeader s.request_info.state s.cursor.header_len
    → IsSession (write_out done s socket).1
write_out-IsSession done s socket w h f header =
    let (bytes, size, info, cursor) = write_out-rest done s socket in
    record {
      flow = write_out-Flow done s socket w h;
      fits = record { inside = rw (bytes, size) f.inside; small = rw size f.small };
      header = rw (info, cursor) header;
    }

pub reply_now-IsSession :
    (read_aborted : Bool) (s : Session) (socket : Socket)
    → s.out_buffer_offset ≡ 0
    → Fits s
    → HasHeader s.request_info.state s.cursor.header_len
    → IsSession (reply_now read_aborted s socket).1
unfolding reply_now
reply_now-IsSession read_aborted s socket at f header =
    elim (Bool-cases (sub_size (length s.out.bytes) s.out_buffer_offset == 0)) [
      | inl none ↦ rw none (record {
        flow = reading;
        fits = record { inside = f.inside; small = f.small };
        header = header;
      })
      | inr some_bytes ↦ rw some_bytes (by_reading read_aborted (ground arith))
    ]
  where
    by_reading :
        (b : Bool)
        → s.out_buffer_offset < length s.out.bytes
        → IsSession
            (if b
              then write_out postponed (record s { state = writing_with_pending_read }) socket
              else write_out success (record s { state = writing_reply }) socket).1
    by_reading true h =
        write_out-IsSession postponed (record s { state = writing_with_pending_read }) socket holds
          h (record { inside = f.inside; small = f.small }) header
    by_reading false h =
        write_out-IsSession success (record s { state = writing_reply }) socket replies h
          (record { inside = f.inside; small = f.small }) header
