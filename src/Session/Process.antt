-- ===== src/Session/Process.antt =====
-- `Session::process` of src/Session.cpp: what an event of the socket makes the session do.
use yamemcached.Base.{
  ℕ, zero, suc, ◌+◌, ◌-◌, Bool, true, false, not, ◌&&◌, ◌||◌, [], length, Outcome, ok, abort, spin,
  ◌>>=◌, ltb, ◌==◌, if◌then◌else◌, bit_and, bit_or,
}
use yamemcached.Request.Info.{ParsingState, parsing_header, parsing_data, done_state, reset}
use yamemcached.Request.Matcher.{Matcher}
use yamemcached.Request.Store.{Store}
use yamemcached.Request.Out.{sub_size}
use yamemcached.Request.Process.{Request, process_request}
use yamemcached.Session.State.{
  Session, SessionState, reading_request, writing_reply, writing_with_pending_read, SessionResult,
  success, failure, postponed, Socket, no_cursor,
}
use yamemcached.Session.Input.{make_room, read_all, ReadEnd, aborted, closed, blocked, failed}
use yamemcached.Session.Output.{write_out}

-- What `process` works on: the session, the hash table and the socket.
pub record Conn (S : Type 0) : Type 0 where
  pub session : Session
  pub store : S
  pub socket : Socket

-- `EPOLLIN` is 1, and `EPOLLOUT` is 4.
abbrev pub has_in : ℕ → Bool
has_in events = not (bit_and events 1 == 0)

abbrev pub has_out : ℕ → Bool
has_out events = not (bit_and events 4 == 0)

abbrev pub is_done : ParsingState → Bool
is_done done_state = true
is_done _ = false

abbrev pub is_done_or_ready : ParsingState → Bool
is_done_or_ready ParsingState.ready_state = true
is_done_or_ready done_state = true
is_done_or_ready parsing_header = false
is_done_or_ready parsing_data = false

-- The leftovers are moved to the begin of the buffer, and their request is parsed anew.
unfoldable pub move_leftovers : Session → Session
move_leftovers s =
    let len = s.in_buffer_bytes - s.cursor.in_buffer_offset in
    record s {
      in_buffer =
          λ i. if ltb i len then s.in_buffer (s.cursor.in_buffer_offset + i) else s.in_buffer i;
      cursor = no_cursor;
      in_buffer_bytes = len;
      request_info = reset s.request_info;
    }

-- What is done with the input buffer after the loop that served at least one request.
unfoldable pub tidy : Session → Outcome Session
unfolding move_leftovers
tidy s =
    if ltb s.cursor.in_buffer_offset s.in_buffer_bytes && not (is_done s.request_info.state)
    then ok (move_leftovers s)
    else if (s.cursor.in_buffer_offset == s.in_buffer_bytes)
        && is_done_or_ready s.request_info.state
    then ok
        (record s { cursor = no_cursor; in_buffer_bytes = 0; request_info = reset s.request_info })
    else abort

-- Where nothing is to be sent, the session reads on.
unfoldable pub reply_now : Bool → Session → Socket → SessionResult × Session × Socket
reply_now read_aborted s socket =
    if sub_size (length s.out.bytes) s.out_buffer_offset == 0
    then (
      success,
      record s {
        out = record s.out { bytes = [] };
        out_buffer_offset = 0;
        state = reading_request;
      },
      socket,
    )
    else if read_aborted
    then write_out postponed (record s { state = writing_with_pending_read }) socket
    else write_out success (record s { state = writing_reply }) socket

-- The error tests after the loop of `recv`.
abbrev pub is_over : ReadEnd → Session → Bool
is_over failed s = true
is_over closed s = s.in_buffer_bytes == 0
is_over aborted s = false
is_over blocked s = false

abbrev pub was_aborted : ReadEnd → Bool
was_aborted aborted = true
was_aborted closed = false
was_aborted blocked = false
was_aborted failed = false

module _ {S : Type 0} where
  -- The arguments of `processRequest`, and what it leaves in the session.
  abbrev pub request_of : Session → S → Request S
  request_of s db = record { info = s.request_info; cursor = s.cursor; out = s.out; store = db }

  abbrev pub put_request : Session → Request S → Session
  put_request s q = record s { request_info = q.info; cursor = q.cursor; out = q.out }

  abbrev pub with_output : Conn S → SessionResult × Session × Socket → SessionResult × Conn S
  with_output c (res, s, socket) = (res, record c { session = s; socket = socket })

  -- `if (events & EPOLLOUT)`, with the result so far
  unfoldable pub on_output : SessionResult → Conn S → SessionState → SessionResult × Conn S
  on_output res c writing_reply = with_output c (write_out success c.session c.socket)
  on_output res c writing_with_pending_read =
      with_output c (write_out postponed (record c.session { state = writing_reply }) c.socket)
  on_output postponed c _ = (postponed, c)
  on_output _ c _ = (success, record c { session = record c.session { state = reading_request } })

  -- `if(res == POSTPONED) postponedEpollFlags |= EPOLLIN`
  unfoldable pub note_postponed : SessionResult × Conn S → SessionResult × Conn S
  note_postponed (postponed, c) = (
    postponed,
    record c {
      session = record c.session {
        postponed_epoll_flags = bit_or c.session.postponed_epoll_flags 1;
      };
    },
  )
  note_postponed (success, c) = (success, c)
  note_postponed (failure, c) = (failure, c)

  -- The second half of `process`, on the result of the first.
  unfoldable pub then_output : ℕ → SessionResult × Conn S → SessionResult × Conn S
  then_output events (failure, c) =
      if has_in events || not (has_out events)
      then (failure, c)
      else note_postponed (on_output failure c c.session.state)
  then_output events (res, c) =
      if has_out events then note_postponed (on_output res c c.session.state) else (res, c)

module _ {S : Type 0} (store : Store S) (thread : ℕ) (junk : ℕ → ℕ) (matcher : Matcher) where
  -- The processing loop, with `elementsProcessed`.
  unfoldable pub serve : ℕ → Session → S → ℕ → Outcome (ℕ × Session × S)
  serve zero s db count = spin
  serve (suc rounds) s db count =
      if ltb s.cursor.in_buffer_offset s.in_buffer_bytes
      then (process_request store thread junk matcher s.in_buffer s.in_buffer_bytes
            (request_of s db)
          >>= λ r.
              let rest = serve rounds (put_request s r.1) r.1.store (count + 1) in
              if r.0 then rest else ok (count, put_request s r.1, r.1.store))
      else ok (count, s, db)

  -- What follows the reading, which was aborted or not.
  unfoldable pub handle_input : Bool → Conn S → Outcome (SessionResult × Conn S)
  handle_input read_aborted c = serve (suc c.session.in_buffer_bytes) c.session c.store 0 >>= λ r.
      if r.0 == 0
      then ok (success, record c { session = record r.1 { state = reading_request }; store = r.2 })
      else (tidy r.1 >>= λ s'.
          let (res, s'', socket) = reply_now read_aborted s' c.socket in
          ok (res, record { session = s''; store = r.2; socket = socket }))

  -- `EPOLLIN` where a request is read.
  unfoldable pub read_input : Conn S → Outcome (SessionResult × Conn S)
  read_input c = make_room c.session >>= λ s. read_all c.socket.receipts s 0 >>= λ r.
      let c' = record c { session = r.1; socket = record c.socket { receipts = r.2 } } in
      if is_over r.0 r.1 then ok (failure, c') else handle_input (was_aborted r.0) c'

  -- `if (events & EPOLLIN)`
  unfoldable pub on_input : Conn S → SessionState → Outcome (SessionResult × Conn S)
  on_input c SessionState.ready_state = read_input c
  on_input c reading_request = read_input c
  on_input c writing_reply =
      ok (success, record c { session = record c.session { state = writing_with_pending_read } })
  on_input c writing_with_pending_read = ok (success, c)

  -- `process`
  unfoldable pub process : ℕ → Conn S → Outcome (SessionResult × Conn S)
  process events c =
      let c0 = record c { session = record c.session { postponed_epoll_flags = 0 } } in
      if has_in events
      then (on_input c0 c0.session.state >>= λ r. ok (then_output events r))
      else ok (then_output events (failure, c0))
