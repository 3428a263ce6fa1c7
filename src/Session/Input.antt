-- ===== src/Session/Input.antt =====
-- How `Session::process` of src/Session.cpp reads what its socket has.
use yamemcached.Base.{
  ℕ, zero, suc, ◌+◌, ◌*◌, ◌%◌, ◌^◌, Bool, true, false, List, [], ◌∷◌, length, take, Outcome, ok,
  abort, ◌>>=◌, ltb, leb, ◌==◌, ◌&&◌, ◌||◌, if◌then◌else◌,
}
use yamemcached.Request.Info.{ParsingState, ready_state, parsing_header, parsing_data, done_state}
use yamemcached.Request.Out.{sub_size}
use yamemcached.Session.State.{
  Session, Receipt, received, recv_would_block, recv_failed, resize, epoll_read_threshold,
}

-- `inBuffer.resize(2*(inBuffer.size()))`, which ends the program where no vector is that long. The
-- pointers into the buffer move with it.
unfoldable pub double_in_buffer : Session → Outcome Session
unfolding resize
double_in_buffer s =
    if leb (2 ^ 63) (2 * s.in_buffer_size)
    then abort
    else ok (record s {
      in_buffer = resize s.in_buffer s.in_buffer_size;
      in_buffer_size = 2 * s.in_buffer_size;
    })

-- `dataBytesRequired + headerBytesRequired`
unfoldable pub bytes_required : Session → ℕ
bytes_required s = (s.cursor.data_bytes_required + s.cursor.header_bytes_required) % 2 ^ 64

-- The doubling before the first `recv`: the size has 64 bits.
unfoldable pub grow_in_buffer : ℕ → Session → Outcome Session
grow_in_buffer zero s = abort
grow_in_buffer (suc rounds) s =
    let next = double_in_buffer s >>= λ s'. grow_in_buffer rounds s' in
    if leb (sub_size s.in_buffer_size s.cursor.in_buffer_offset) (bytes_required s)
    then next
    else ok s

unfoldable pub make_room : Session → Outcome Session
make_room s =
    if ltb 0 (bytes_required s) || (sub_size s.in_buffer_size s.cursor.in_buffer_offset == 0)
    then grow_in_buffer 64 s
    else ok s

-- The bytes of a list from an offset of the buffer on.
unfoldable pub place : (ℕ → ℕ) → ℕ → List ℕ → ℕ → ℕ
place buffer at [] i = buffer i
place buffer at (c ∷ cs) i = if i == at then c else place buffer (at + 1) cs i

-- What `recv` wrote behind the bytes that are there.
unfoldable pub receive : Session → List ℕ → Session
unfolding place
receive s bytes = record s {
  in_buffer = place s.in_buffer s.in_buffer_bytes bytes;
  in_buffer_bytes = s.in_buffer_bytes + length bytes;
}

-- The states in which a long read may stop.
unfoldable pub between_requests : ParsingState → Bool
between_requests done_state = true
between_requests ready_state = true
between_requests parsing_header = true
between_requests parsing_data = false

-- `if (inBufferBytes == inBuffer.size())`
unfoldable pub room_for_more : Session → Outcome Session
room_for_more s = if s.in_buffer_bytes == s.in_buffer_size then double_in_buffer s else ok s

-- How the loop of `recv` ended.
pub data ReadEnd : Type 0 where
  aborted : ReadEnd
  closed : ReadEnd
  blocked : ReadEnd
  failed : ReadEnd

-- The loop of `recv`, with `bytesRead`.
unfoldable pub read_all : List Receipt → Session → ℕ → Outcome (ReadEnd × Session × List Receipt)
read_all [] s bytes_read = ok (blocked, s, [])
read_all (recv_would_block ∷ rest) s bytes_read = ok (blocked, s, rest)
read_all (recv_failed ∷ rest) s bytes_read = ok (failed, s, rest)
read_all (received bytes ∷ rest) s bytes_read =
    let once = take (sub_size s.in_buffer_size s.in_buffer_bytes) bytes in
    let s' = receive s once in
    let next = room_for_more s' >>= λ s''. read_all rest s'' (bytes_read + length once) in
    if length once == 0
    then ok (closed, s, rest)
    else if leb epoll_read_threshold (bytes_read + length once)
        && between_requests s.request_info.state
    then ok (aborted, s', rest)
    else next
