-- ===== src/Session/State.antt =====
-- The data of src/Session.hh, the constructor, `reset` and `clear` of src/Session.cpp, and the
-- socket that the session reads and writes.
use yamemcached.Base.{ℕ, ◌*◌, Option, none, List, [], ltb, if◌then◌else◌}
use yamemcached.Request.Info.{RequestInfo, RequestType, new_info}
use yamemcached.Request.Out.{Out}
use yamemcached.Request.Process.{Cursor}

pub data SessionState : Type 0 where
  ready_state : SessionState
  reading_request : SessionState
  writing_reply : SessionState
  writing_with_pending_read : SessionState

pub data SessionResult : Type 0 where
  success : SessionResult
  failure : SessionResult
  postponed : SessionResult

-- The fields of `Session`. Those from `headerOffset` to `dataBytesRequired` and `inBufferOffset`
-- are the cursor; `outBuffer` and `outBufferBytes` are `out`; a socket of -1 is `none`.
pub record Session : Type 0 where
  pub socket : Option ℕ
  pub state : SessionState
  pub cursor : Cursor
  pub in_buffer_bytes : ℕ
  pub out_buffer_offset : ℕ
  pub in_buffer : ℕ → ℕ
  pub in_buffer_size : ℕ
  pub out : Out
  pub request_info : RequestInfo
  pub postponed_epoll_flags : ℕ

abbrev pub min_in_buffer_size : ℕ
min_in_buffer_size = 4 * 1024

abbrev pub min_out_buffer_size : ℕ
min_out_buffer_size = 4 * 1024

-- `EPOLL_READ_THRESHOLD`
abbrev pub epoll_read_threshold : ℕ
epoll_read_threshold = 16 * 1024 * 1024

abbrev pub no_cursor : Cursor
no_cursor = record {
  header_offset = 0;
  header_len = 0;
  header_bytes_required = 0;
  data_offset = 0;
  data_len = 0;
  data_bytes_required = 0;
  in_buffer_offset = 0;
}

-- `vector::resize`: what is new is 0.
unfoldable pub resize : (ℕ → ℕ) → ℕ → ℕ → ℕ
resize buffer size i = if ltb i size then buffer i else 0

-- `memset(&requestInfo, 0, sizeof(RequestInfo))`: the first of the states and of the types.
abbrev pub zero_info : RequestInfo
zero_info = record new_info { request_type = RequestType.get }

-- The constructor.
unfoldable pub new_session : Session
new_session = record {
  socket = none;
  state = ready_state;
  cursor = no_cursor;
  in_buffer_bytes = 0;
  out_buffer_offset = 0;
  in_buffer = λ _. 0;
  in_buffer_size = min_in_buffer_size;
  out = record { bytes = []; size = min_out_buffer_size };
  request_info = zero_info;
  postponed_epoll_flags = 0;
}

-- `reset`, which keeps the socket and the buffers.
unfoldable pub reset_session : Session → Session
reset_session s = record s {
  state = reading_request;
  cursor = no_cursor;
  in_buffer_bytes = 0;
  out_buffer_offset = 0;
  out = record s.out { bytes = [] };
  request_info = zero_info;
  postponed_epoll_flags = 0;
}

-- `clear`
unfoldable pub clear : Session → Session
unfolding resize
clear s = record {
  socket = none;
  state = ready_state;
  cursor = no_cursor;
  in_buffer_bytes = 0;
  out_buffer_offset = 0;
  in_buffer = resize s.in_buffer s.in_buffer_size;
  in_buffer_size = min_in_buffer_size;
  out = record { bytes = []; size = min_out_buffer_size };
  request_info = zero_info;
  postponed_epoll_flags = 0;
}

-- What the calls of `recv` give, in turn; one gives no more bytes than it was asked for. The empty
-- list of bytes is the 0 of a closed connection.
pub data Receipt : Type 0 where
  received : List ℕ → Receipt
  recv_would_block : Receipt
  recv_failed : Receipt

-- What the calls of `send` give, in turn; one takes no more bytes than it was given.
pub data Sending : Type 0 where
  accepted : ℕ → Sending
  send_would_block : Sending
  connection_reset : Sending
  send_failed : Sending

-- The socket: the results to come, after which a call would block, and the bytes that were taken.
pub record Socket : Type 0 where
  pub receipts : List Receipt
  pub sendings : List Sending
  pub sent : List ℕ
