-- ===== src/Thread/State.antt =====
-- The data of src/ServerThread.hh, and the constructor and `addSession` of src/ServerThread.cpp. A
-- pointer to a session is its number.
use yamemcached.Base.{
  ℕ, zero, suc, ◌+◌, Bool, false, Option, none, some, List, [], ◌∷◌, Outcome, ok, ◌>>=◌, update,
}
use yamemcached.LaneQueue.{LaneQueue, init, push, pop}
use yamemcached.Request.Info.{reset}
use yamemcached.Session.State.{Session, Socket, recv_failed, send_failed, new_session}

-- `MAX_CLIENTS_PER_THREAD`
abbrev pub max_clients_per_thread : ℕ
max_clients_per_thread = 4096

-- The thread, with what its pointers and its sockets name: the sessions, the sockets by their
-- numbers, those that it closed, and the hash table of the server. A file of -1 is `none`.
pub record ServerThread (S : Type 0) : Type 0 where
  pub epoll_fd : Option ℕ
  pub my_thread_id : ℕ
  pub session_pool : LaneQueue ℕ
  pub session_backlog : List ℕ
  pub sessions : ℕ → Session
  pub sockets : ℕ → Socket
  pub closed : List ℕ
  pub store : S
  pub udp_incomplete_read : Bool

-- The loop of the constructor: `left` sessions from number `i` on are made and pushed.
unfoldable pub push_sessions : ℕ → ℕ → LaneQueue ℕ → Outcome (LaneQueue ℕ)
push_sessions zero i pool = ok pool
push_sessions (suc left) i pool = push pool i >>= λ r. push_sessions left (i + 1) r.1

-- The members as the constructor leaves them.
abbrev pub made_thread : {S : Type 0} → LaneQueue ℕ → (ℕ → Socket) → S → ServerThread S
made_thread pool sockets store = record {
  epoll_fd = none;
  my_thread_id = 0;
  session_pool = pool;
  session_backlog = [];
  sessions = λ _. new_session;
  sockets = sockets;
  closed = [];
  store = store;
  udp_incomplete_read = false;
}

-- The constructor; `junk` is what the pool's slots have.
unfoldable pub new_thread : {S : Type 0} → (ℕ → ℕ) → (ℕ → Socket) → S → Outcome (ServerThread S)
new_thread junk sockets store = init max_clients_per_thread junk >>= λ pool.
    push_sessions max_clients_per_thread 0 pool >>= λ pool'. ok (made_thread pool' sockets store)

-- `addSession`, where `added` is whether `epoll_ctl` succeeds; `true` is the result 0.
unfoldable pub add_session :
    {S : Type 0} → Bool → ServerThread S → Option ℕ → Outcome (Bool × ServerThread S)
add_session added t client_socket = elim t.epoll_fd [
  | none ↦ ok (false, t)
  | some fd ↦ pop t.session_pool >>= λ r. elim r.0 [
    | none ↦ ok (false, record t { session_pool = r.1 })
    | some i ↦ ok (
      added,
      record t {
        session_pool = r.1;
        sessions = update t.sessions i (record (t.sessions i) {
          socket = client_socket;
          request_info = reset (t.sessions i).request_info;
        });
      },
    )
  ]
]

-- A call on the socket -1 fails.
abbrev pub no_socket : Socket
no_socket = record { receipts = recv_failed ∷ []; sendings = send_failed ∷ []; sent = [] }

abbrev pub socket_of : {S : Type 0} → ServerThread S → Option ℕ → Socket
socket_of t none = no_socket
socket_of t (some fd) = t.sockets fd
