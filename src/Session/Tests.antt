-- ===== src/Session/Tests.antt =====
-- Runs of the session of src/Session.cpp, and its theorems at concrete inputs.
use yamemcached.Base.{
  ℕ, ◌<◌, ◌≡◌, ◌↔◌, refl, true, false, none, some, List, [], ◌∷◌, ◌++◌, ok, abort, ◌>>=◌, ◌==◌,
  if◌then◌else◌, arith, Each,
}
use yamemcached.Request.Info.{RequestType, new_info, parsing_header, done_state, request_type_of}
use yamemcached.Request.Store.{Store}
use yamemcached.Request.Matcher.{Matcher, match_substring, match_spots, match_from}
use yamemcached.Request.Out.{grow, reserve, reply, write, string_at, text}
use yamemcached.Request.Header.{
  parse_memcached_header, parse_request, parse_get, more_keys, field, scan_from,
}
use yamemcached.Request.Commands.{run_get, get_all, get_one}
use yamemcached.Request.Process.{
  process_request, rounds, step, step_ready, step_header, header_done, step_data, run_request,
  run_command, more_texts,
}
use yamemcached.Session.State.{
  Session, SessionState, success, failure, postponed, reading_request, writing_reply,
  writing_with_pending_read, Receipt, received, accepted, send_would_block, no_cursor,
}
use yamemcached.Session.Input.{
  make_room, bytes_required, read_all, receive, place, room_for_more, between_requests,
}
use yamemcached.Session.Output.{send_all, send_replies, after_sending, write_out}
use yamemcached.Session.Sent.{pending, on_output-pending}
use yamemcached.Session.Forgotten.{with_sendings, finished, pending_read-forgotten}
use yamemcached.Session.Postponed.{then_output-closes}
use yamemcached.Session.Flow.{Flow, IsSession}
use yamemcached.Session.Invariant.{process-IsSession}
use yamemcached.Session.Input.{ReadEnd}
use yamemcached.Session.Reading.{IsRead, read_all-IsRead}
use yamemcached.Session.Served.{tidy-serve}
use yamemcached.Session.Process.{
  Conn, process, on_input, on_output, read_input, handle_input, serve, tidy, move_leftovers,
  reply_now, then_output, has_in, has_out,
}

-- A store that never has anything.
abbrev pub empty_store : Store ℕ
empty_store = record {
  insert_or_set = λ s t k v e. ok (true, s);
  insert = λ s t k v e. ok (true, s);
  set = λ s t k v e. ok (false, s);
  get = λ s t k. ok (none, s);
  remove = λ s t k. ok (false, s);
  get_locked = λ s t k l. ok (none, s, l);
  set_locked = λ s t v e l a b. ok (false, s);
  unlock_element = λ s l a b. ok (false, s);
  count = λ s. ok 0;
}

-- "get" by its first character.
abbrev pub get_matcher : Matcher
get_matcher = record {
  spot_selector_match = λ n.
      if n == 3
      then some (record { pos = 0; da_char = 103; matching_string_idx = 0 } ∷ [])
      else none;
}

-- "get a\r"
abbrev get_line : List ℕ
get_line = 103 ∷ 101 ∷ 116 ∷ 32 ∷ 97 ∷ 13 ∷ []

abbrev client : List Receipt → Conn ℕ
client script = record {
  session = record {
    socket = some 5;
    state = reading_request;
    cursor = no_cursor;
    in_buffer_bytes = 0;
    out_buffer_offset = 0;
    in_buffer = λ _. 0;
    in_buffer_size = 4096;
    out = record { bytes = []; size = 4096 };
    request_info = new_info;
    postponed_epoll_flags = 0;
  };
  store = 0;
  socket = record { receipts = script; sendings = accepted 100 ∷ []; sent = [] };
}

-- The whole line: "END\r\n" is sent.
process-get_run :
    (process empty_store 0 (λ _. 0) get_matcher 1 (client (received (get_line ++ (10 ∷ [])) ∷ []))
      >>= λ r. ok r.1.socket.sent)
    ≡ ok (69 ∷ 78 ∷ 68 ∷ 13 ∷ 10 ∷ [])
unfolding process then_output on_input read_input make_room bytes_required read_all receive place
    room_for_more between_requests handle_input serve tidy move_leftovers reply_now write_out
    send_replies send_all after_sending process_request rounds step step_ready step_header
    header_done step_data parse_memcached_header scan_from parse_request parse_get field more_keys
    match_substring match_spots match_from request_type_of run_request run_command string_at text
    more_texts run_get get_all get_one reply reserve grow write
process-get_run = refl

-- The line without its last byte: the server aborts.
process-split_run :
    process empty_store 0 (λ _. 0) get_matcher 1 (client (received get_line ∷ [])) ≡ abort
unfolding process then_output on_input read_input make_room bytes_required read_all receive place
    room_for_more between_requests handle_input serve tidy move_leftovers reply_now write_out
    send_replies send_all after_sending process_request rounds step step_ready step_header
    header_done step_data parse_memcached_header scan_from parse_request parse_get field more_keys
    match_substring match_spots match_from request_type_of run_request run_command string_at text
    more_texts run_get get_all get_one reply reserve grow write
process-split_run = refl

-- Two bytes of replies, the first of them sent.
abbrev writer : SessionState → Conn ℕ
writer state = record {
  session = record (client []).session {
    state = state;
    out = record { bytes = 65 ∷ 66 ∷ []; size = 4096 };
    out_buffer_offset = 1;
  };
  store = 0;
  socket = record { receipts = []; sendings = accepted 1 ∷ []; sent = 65 ∷ [] };
}

on_output-pending_example :
    let (res, c) = on_output failure (writer writing_reply) writing_reply in
    c.socket.sent ++ pending c.session ≡ 65 ∷ 66 ∷ []
on_output-pending_example =
    on_output-pending failure (writer writing_reply) writing_reply (omega arith)

pending_read-forgotten_example :
    (process empty_store 0
        (λ _. 0)
        get_matcher
        4
        (with_sendings (writer writing_with_pending_read) (accepted 2 ∷ []))
      ≡ ok (postponed, finished (writer writing_with_pending_read) 1 []))
    × ((process empty_store 0
            (λ _. 0)
            get_matcher
            4
            (with_sendings (writer writing_with_pending_read) (send_would_block ∷ accepted 2 ∷ []))
          >>= λ r. process empty_store 0 (λ _. 0) get_matcher 4 r.1)
        ≡ ok (success, finished (writer writing_with_pending_read) 0 []))
pending_read-forgotten_example =
    pending_read-forgotten empty_store 0 (λ _. 0) get_matcher (writer writing_with_pending_read) 2
      [] refl (omega arith) (omega arith) (omega arith)

then_output-closes_example :
    (has_in 0 ≡ has_out 1)
    × (has_out 1 ≡ false
        → process empty_store 0 (λ _. 0) get_matcher 0 (writer reading_request)
          ≡ ok (failure, writer reading_request))
unfolding then_output
then_output-closes_example =
    then_output-closes empty_store 0 (λ _. 0) get_matcher 1 postponed (writer reading_request)
      (writer reading_request) refl refl

client-IsSession : (script : List Receipt) → IsSession (client script).session
client-IsSession script = record {
  flow = Flow.reading;
  fits = record { inside = omega arith; small = omega arith };
  header = tt;
}

-- Half a header: nothing is served, and the session waits.
abbrev waiting_client : Conn ℕ
waiting_client = record {
  session = record (client []).session {
    cursor = record no_cursor { header_bytes_required = 32 };
    in_buffer_bytes = 2;
    in_buffer = place (λ _. 0) 0 (103 ∷ 101 ∷ []);
    request_info = record new_info { state = parsing_header };
  };
  store = 0;
  socket = (client []).socket;
}

process-waits :
    process empty_store 0 (λ _. 0) get_matcher 1 (client (received (103 ∷ 101 ∷ []) ∷ []))
    ≡ ok (success, waiting_client)
unfolding process then_output on_input read_input make_room bytes_required read_all receive place
    room_for_more between_requests handle_input serve process_request rounds step step_ready
    step_header parse_memcached_header scan_from
process-waits = refl

process-IsSession_example : IsSession waiting_client.session
process-IsSession_example =
    process-IsSession empty_store 0 (λ _. 0) get_matcher 1 (client (received (103 ∷ 101 ∷ []) ∷ []))
      waiting_client success (client-IsSession (received (103 ∷ 101 ∷ []) ∷ [])) process-waits

read_all-IsRead_example :
    Each
      (λ (r : ReadEnd × Session × List Receipt). IsRead (client []).session r.1)
      (read_all (received get_line ∷ []) (client []).session 0)
read_all-IsRead_example =
    read_all-IsRead (received get_line ∷ []) (client []).session 0 (client-IsSession []).fits

-- "get a\r" is served, and the offset is behind the bytes.
abbrev split_session : Session
split_session = record (client []).session {
  in_buffer_bytes = 6;
  in_buffer = place (λ _. 0) 0 get_line;
}

abbrev split_served : Session
split_served = record split_session {
  cursor = record {
    header_offset = 0;
    header_len = 7;
    header_bytes_required = 0;
    data_offset = 7;
    data_len = 0;
    data_bytes_required = 0;
    in_buffer_offset = 7;
  };
  out = record { bytes = 69 ∷ 78 ∷ 68 ∷ 13 ∷ 10 ∷ []; size = 4096 };
  request_info = record new_info {
    state = done_state;
    request_type = RequestType.get;
    p_key_buffer = some 4;
    key_buffer_len = 1;
  };
}

serve-split : serve empty_store 0 (λ _. 0) get_matcher 7 split_session 0 0 ≡ ok (1, split_served, 0)
unfolding place serve process_request rounds step step_ready step_header header_done step_data
    parse_memcached_header scan_from parse_request parse_get field more_keys match_substring
    match_spots match_from request_type_of run_request run_command string_at text more_texts run_get
    get_all get_one reply reserve grow write
serve-split = refl

tidy-serve_example : (tidy split_served ≡ abort) ↔ (6 < 7)
tidy-serve_example =
    tidy-serve empty_store 0 (λ _. 0) get_matcher 7 split_session 0 1 split_served 0 (omega arith)
      tt (omega arith) serve-split
