-- ===== src/Session/Output.antt =====
-- How `Session::process` of src/Session.cpp sends its replies.
use yamemcached.Base.{ℕ, ◌+◌, List, [], ◌∷◌, ◌++◌, length, take, drop, ◌==◌, if◌then◌else◌}
use yamemcached.Request.Out.{sub_size}
use yamemcached.Session.State.{
  Session, SessionResult, success, failure, reading_request, Sending, accepted, send_would_block,
  connection_reset, send_failed, Socket,
}

-- How the loop of `send` ended: with all sent, or by what a call gave.
pub data SendEnd : Type 0 where
  all_sent : SendEnd
  sent_none : SendEnd
  send_blocked : SendEnd
  send_error : SendEnd

-- The loop of `send`, from an offset of the bytes that is before their end. It gives the offset
-- that is reached, the bytes that were taken, and the results that are left.
unfoldable pub send_all : List Sending → List ℕ → ℕ → SendEnd × ℕ × List ℕ × List Sending
send_all [] bytes offset = (send_blocked, offset, [], [])
send_all (send_would_block ∷ rest) bytes offset = (send_blocked, offset, [], rest)
send_all (connection_reset ∷ rest) bytes offset = (send_error, offset, [], rest)
send_all (send_failed ∷ rest) bytes offset = (send_error, offset, [], rest)
send_all (accepted n ∷ rest) bytes offset =
    let once = take n (drop offset bytes) in
    let (end, last, sent, left) = send_all rest bytes (offset + length once) in
    if length once == 0
    then (sent_none, offset, [], rest)
    else if offset + length once == length bytes
    then (all_sent, offset + length once, once, rest)
    else (end, last, once ++ sent, left)

-- The loop with its test: with nothing to send, `bytesSent` stays 0.
unfoldable pub send_replies : List Sending → List ℕ → ℕ → SendEnd × ℕ × List ℕ × List Sending
send_replies script bytes offset =
    if sub_size (length bytes) offset == 0
    then (sent_none, offset, [], script)
    else send_all script bytes offset

-- The tests after the loop; `done` is the result where all was sent.
unfoldable pub after_sending : SendEnd → SessionResult → Session → SessionResult × Session
after_sending all_sent done s = (
  done,
  record s { state = reading_request; out = record s.out { bytes = [] }; out_buffer_offset = 0 },
)
after_sending sent_none done s = (failure, s)
after_sending send_blocked done s = (success, s)
after_sending send_error done s = (failure, s)

-- The sending of what is in the output buffer.
unfoldable pub write_out : SessionResult → Session → Socket → SessionResult × Session × Socket
write_out done s socket =
    let (end, last, sent, left) = send_replies socket.sendings s.out.bytes s.out_buffer_offset in
    let (res, s') = after_sending end done (record s { out_buffer_offset = last }) in
    (res, s', record socket { sendings = left; sent = socket.sent ++ sent })
