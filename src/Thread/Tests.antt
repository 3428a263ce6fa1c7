-- ===== src/Thread/Tests.antt =====
-- The theorems about the threads of src/ServerThread.cpp at concrete inputs.
use mathlib.Core.List.{Perm}
use yamemcached.Base.{
  ℕ, ◌<◌, ◌≡◌, refl, Bool, true, false, some, List, [], ◌∷◌, take, ok, ◌>>=◌, ◌==◌, if◌then◌else◌,
  arith,
}
use yamemcached.LaneQueue.{LaneQueue}
use yamemcached.LaneQueue.Views.{IsValid}
use yamemcached.Request.Info.{new_info}
use yamemcached.Session.State.{failure, new_session}
use yamemcached.Session.Input.{make_room, bytes_required, read_all}
use yamemcached.Session.Process.{Conn, process, on_input, read_input, handle_input, then_output}
use yamemcached.Session.Tests.{empty_store, get_matcher}
use yamemcached.Binary.Header.{read_header, read_number}
use yamemcached.Binary.Commands.{process_binary_request, in_place, skip}
use yamemcached.Session.Input.{place}
use yamemcached.Thread.Datagrams.{Datagrams, first_datagrams, answer_datagram, answer_datagram-cut}
use yamemcached.Thread.State.{
  ServerThread, new_thread, add_session, max_clients_per_thread, no_socket,
}
use yamemcached.Thread.Loop.{conn_of, put_conn, handle_event, handle_backlog}
use yamemcached.Thread.Pool.{pooled, count_up, new_thread-pooled, Added, add_session-Added}
use yamemcached.Thread.Release.{Settled, handle_event-Settled, release-twice}

new_thread-pooled_example :
    (t : ServerThread ℕ) × (new_thread (λ _. 0) (λ _. no_socket) 0 ≡ ok t)
    × IsValid 12 t.session_pool
    × Perm (pooled 12 t.session_pool) (count_up max_clients_per_thread 0)
    × (t.session_backlog ≡ [])
new_thread-pooled_example = new_thread-pooled (λ _. 0) (λ _. no_socket) 0

-- Two slots a lane, with the number 7 in the first `held` of them.
abbrev small_pool : ℕ → LaneQueue ℕ
small_pool held = record {
  lanes = λ lane. record { ring = λ _. 7; head = if lane == 0 then held else 0; tail = 0 };
  buffer_mask = 1;
  lane_switch = 0;
}

small_pool-IsValid : (held : ℕ) → held < 2 → IsValid 1 (small_pool held)
small_pool-IsValid held h = record {
  fits = omega arith;
  mask = refl;
  lane = λ i. record { head_in = ground arith; tail_in = omega arith };
}

abbrev small_thread : ℕ → ServerThread ℕ
small_thread held = record {
  epoll_fd = some 3;
  my_thread_id = 0;
  session_pool = small_pool held;
  session_backlog = 7 ∷ [];
  sessions = λ _. record new_session { socket = some 5; request_info = new_info };
  sockets = λ _. no_socket;
  closed = [];
  store = 0;
  udp_incomplete_read = false;
}

add_session-Added_example :
    (r : Bool × ServerThread ℕ) × (add_session true (small_thread 1) (some 9) ≡ ok r)
    × Added 1 true (small_thread 1) (some 9) r
add_session-Added_example =
    add_session-Added 1 true (small_thread 1) (some 9) 3 refl (small_pool-IsValid 1 (omega arith))

-- Session 7 after its `recv` failed.
abbrev failed_conn : Conn ℕ
failed_conn = record (conn_of (small_thread 0) 7) { socket = record no_socket { receipts = [] } }

process-fails :
    process empty_store 0 (λ _. 0) get_matcher 1 (conn_of (small_thread 0) 7)
    ≡ ok (failure, failed_conn)
unfolding process on_input read_input make_room bytes_required read_all handle_input then_output
    new_session
process-fails = refl

handle_event-Settled_example :
    (t : ServerThread ℕ) × (handle_event empty_store
        (λ _. 0)
        get_matcher
        (small_thread 0)
        (some 7, 1)
      ≡ ok t)
    × Settled 1 failure (put_conn (small_thread 0) 7 failed_conn) 7 t
handle_event-Settled_example =
    handle_event-Settled empty_store (λ _. 0) get_matcher 1 (small_thread 0) 7 1 failure failed_conn
      process-fails (small_pool-IsValid 0 (omega arith)) (omega arith)

release-twice_example :
    (t : ServerThread ℕ) × ((handle_event empty_store
          (λ _. 0)
          get_matcher
          (small_thread 0)
          (some 7, 1)
        >>= handle_backlog empty_store (λ _. 0) get_matcher)
      ≡ ok t)
    × Perm (pooled 1 t.session_pool) (7 ∷ 7 ∷ [])
    × (t.closed ≡ 5 ∷ 5 ∷ [])
release-twice_example =
    release-twice empty_store (λ _. 0) get_matcher 1 (small_thread 0) 7 1 failed_conn 5 refl
      process-fails refl (small_pool-IsValid 0 (omega arith)) (omega arith)

-- A byte that is no request: nothing is replied.
process-skips :
    process_binary_request empty_store 0
      (read_header (λ _. 0) 0)
      (in_place (place (λ _. 0) 0 (take 65536 (1 ∷ []))))
      0
      (λ _. 0)
      (record { in_buffer_offset = 0; out = []; store = 0 })
    ≡ ok (record { in_buffer_offset = 24; out = []; store = 0 })
unfolding process_binary_request read_header read_number skip in_place place
process-skips = refl

answer_datagram-cut_example :
    (t : ServerThread ℕ) × (d : Datagrams) × (answer_datagram empty_store
        (read_header (λ _. 0) 0)
        0
        (λ _. 0)
        (small_thread 0)
        (first_datagrams (λ _ _. 0))
        0
        (1 ∷ [])
      ≡ ok (t, d))
    × ((more : List ℕ)
        → answer_datagram empty_store (read_header (λ _. 0) 0) 0 (λ _. 0) t d 0 more
          ≡ answer_datagram empty_store (read_header (λ _. 0) 0) 0 (λ _. 0) t d 0 (take 0 more))
unfolding first_datagrams
answer_datagram-cut_example =
    answer_datagram-cut empty_store (read_header (λ _. 0) 0) 0 (λ _. 0) (small_thread 0)
      (first_datagrams (λ _ _. 0)) 0 (1 ∷ [])
      (record { in_buffer_offset = 24; out = []; store = 0 }) process-skips
