-- ===== src/Thread/Loop.antt =====
-- A cycle of the loop of `threadProc` of src/ServerThread.cpp.
use yamemcached.Base.{
  ℕ, ◌/◌, Bool, true, false, Option, none, some, List, [], ◌∷◌, ◌++◌, Outcome, ok, ◌>>=◌, leb,
  if◌then◌else◌, update,
}
use yamemcached.LaneQueue.{push}
use yamemcached.Request.Matcher.{Matcher}
use yamemcached.Request.Store.{Store}
use yamemcached.Session.State.{Socket, SessionResult, success, failure, postponed, reset_session}
use yamemcached.Session.Process.{Conn, process, has_in}
use yamemcached.Thread.State.{ServerThread, socket_of}

abbrev pub put_socket : (ℕ → Socket) → Option ℕ → Socket → ℕ → Socket
put_socket sockets none socket = sockets
put_socket sockets (some fd) socket = update sockets fd socket

-- `close(pSession->socket)`, which closes nothing for -1
abbrev pub close_fd : Option ℕ → List ℕ → List ℕ
close_fd none closed = closed
close_fd (some fd) closed = fd ∷ closed

module _ {S : Type 0} where
  -- Session `i` is given back: its socket is closed, it is reset and pushed into the pool.
  unfoldable pub close_session : ServerThread S → ℕ → Outcome (ServerThread S)
  close_session t i = push t.session_pool i >>= λ r. ok (record t {
    closed = close_fd (t.sessions i).socket t.closed;
    sessions = update t.sessions i (reset_session (t.sessions i));
    session_pool = r.1;
  })

  -- The timeout of `epoll_wait`: `EPOLL_PERIOD_MILLISECONDS`, or `SYSTICK_IN_MS` where `hz` is `HZ`
  unfoldable pub epoll_timeout : ℕ → ServerThread S → ℕ
  epoll_timeout hz t = elim t.session_backlog [
    | [] ↦ if t.udp_incomplete_read then (if leb 1000 hz then 1 else 1000 / hz) else 100
    | i ∷ rest ↦ if leb 1000 hz then 1 else 1000 / hz
  ]

  abbrev pub conn_of : ServerThread S → ℕ → Conn S
  conn_of t i = record {
    session = t.sessions i;
    store = t.store;
    socket = socket_of t (t.sessions i).socket;
  }

  abbrev pub put_conn : ServerThread S → ℕ → Conn S → ServerThread S
  put_conn t i c = record t {
    sessions = update t.sessions i c.session;
    store = c.store;
    sockets = put_socket t.sockets (t.sessions i).socket c.socket;
  }

  -- What the loop over the backlog does with a result, and whether the session stays.
  unfoldable pub settle_postponed :
      SessionResult → ServerThread S → ℕ → Outcome (Bool × ServerThread S)
  settle_postponed failure t i = close_session t i >>= λ t'. ok (false, t')
  settle_postponed success t i = ok (false, t)
  settle_postponed postponed t i = ok (true, t)

  -- What the loop over the events does with a result.
  unfoldable pub settle : SessionResult → ServerThread S → ℕ → Outcome (ServerThread S)
  settle failure t i = close_session t i
  settle postponed t i = ok (record t { session_backlog = t.session_backlog ++ (i ∷ []) })
  settle success t i = ok t

module _ {S : Type 0} (store : Store S) (junk : ℕ → ℕ) (matcher : Matcher) where
  -- `pSession->process(events, myThreadId)`
  unfoldable pub run_session : ServerThread S → ℕ → ℕ → Outcome (SessionResult × ServerThread S)
  run_session t i events = process store t.my_thread_id junk matcher events (conn_of t i) >>= λ r.
      ok (r.0, put_conn t i r.1)

  -- The loop over the backlog, with what stays in it.
  unfoldable pub run_backlog : List ℕ → ServerThread S → Outcome (List ℕ × ServerThread S)
  run_backlog [] t = ok ([], t)
  run_backlog (i ∷ rest) t = run_session t i (t.sessions i).postponed_epoll_flags >>= λ r.
      settle_postponed r.0 r.1 i >>= λ b.
      run_backlog rest b.1 >>= λ q. ok (if b.0 then i ∷ q.0 else q.0, q.1)

  unfoldable pub handle_backlog : ServerThread S → Outcome (ServerThread S)
  handle_backlog t =
      run_backlog t.session_backlog t >>= λ r. ok (record r.1 { session_backlog = r.0 })

  -- An event of a session, or of the datagrams' socket, whose pointer is null.
  unfoldable pub handle_event : ServerThread S → Option ℕ × ℕ → Outcome (ServerThread S)
  handle_event t (some i, events) = run_session t i events >>= λ r. settle r.0 r.1 i
  handle_event t (none, events) =
      ok (if has_in events then record t { udp_incomplete_read = true } else t)

  unfoldable pub handle_events : ServerThread S → List (Option ℕ × ℕ) → Outcome (ServerThread S)
  handle_events t [] = ok t
  handle_events t (e ∷ rest) = handle_event t e >>= λ t'. handle_events t' rest
