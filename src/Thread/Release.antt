-- ===== src/Thread/Release.antt =====
-- How src/ServerThread.cpp gives sessions back to their pool.
use mathlib.Core.List.{Perm}
use mathlib.Core.List.Perm
use yamemcached.Base.{
  ℕ, ◌+◌, ◌*◌, ◌^◌, ◌<◌, ◌≡◌, refl, ap, ap₂, ◌∙◌, Option, some, List, [], ◌∷◌, ◌++◌, length, ok,
  ◌>>=◌, update, ==_refl, arith,
}
use yamemcached.LaneQueue.Views.{IsValid}
use yamemcached.LaneQueue.Room.{Pushed, push-Pushed}
use yamemcached.Request.Matcher.{Matcher}
use yamemcached.Request.Store.{Store}
use yamemcached.Session.State.{SessionResult, success, failure, postponed, reset_session}
use yamemcached.Session.Process.{Conn, process, then_output}
use yamemcached.Thread.State.{ServerThread}
use yamemcached.Thread.Loop.{
  close_fd, close_session, conn_of, put_conn, run_session, settle, settle_postponed, handle_event,
  run_backlog, handle_backlog,
}
use yamemcached.Thread.Pool.{pooled}

module _ {S : Type 0} where
  -- Session `i` of `t` was given back.
  pub record Released (k : ℕ) (t : ServerThread S) (i : ℕ) (t' : ServerThread S) : Type 0 where
    pub pool : Pushed k t.session_pool t'.session_pool i
    pub same : t' ≡ record t {
      closed = close_fd (t.sessions i).socket t.closed;
      sessions = update t.sessions i (reset_session (t.sessions i));
      session_pool = t'.session_pool;
    }

  close_session-Released :
      (k : ℕ) (t : ServerThread S) (i : ℕ)
      → IsValid k t.session_pool
      → length (pooled k t.session_pool) + 2 < 2 * 2 ^ k
      → (t' : ServerThread S) × (close_session t i ≡ ok t') × Released k t i t'
  unfolding close_session
  close_session-Released k t i valid room =
      let (pool, pushed, p) = push-Pushed k t.session_pool i valid room in
      (
        record t {
          closed = close_fd (t.sessions i).socket t.closed;
          sessions = update t.sessions i (reset_session (t.sessions i));
          session_pool = pool;
        },
        rw pushed refl,
        record { pool = p; same = refl },
      )

  reset_flags :
      (k : ℕ) (t : ServerThread S) (i : ℕ) (c : Conn S) (t' : ServerThread S)
      → Released k (put_conn t i c) i t'
      → (t'.sessions i).postponed_epoll_flags ≡ 0
  unfolding reset_session
  reset_flags k t i c t' r =
      ap (λ (z : ServerThread S). (z.sessions i).postponed_epoll_flags) r.same ∙ rw (==_refl i) refl

  reset_socket :
      (k : ℕ) (t : ServerThread S) (i : ℕ) (c : Conn S) (t' : ServerThread S)
      → Released k (put_conn t i c) i t'
      → (t'.sessions i).socket ≡ c.session.socket
  unfolding reset_session
  reset_socket k t i c t' r =
      ap (λ (z : ServerThread S). (z.sessions i).socket) r.same ∙ rw (==_refl i) refl

  closed_once :
      (k : ℕ) (t : ServerThread S) (i : ℕ) (c : Conn S) (t' : ServerThread S)
      → Released k (put_conn t i c) i t'
      → t'.closed ≡ close_fd c.session.socket t.closed
  closed_once k t i c t' r = ap (λ (z : ServerThread S). z.closed) r.same ∙ rw (==_refl i) refl

  -- What the loop over the events makes of the results of a session.
  pub Settled : ℕ → SessionResult → ServerThread S → ℕ → ServerThread S → Type 0
  Settled k failure t i t' = Released k t i t'
  Settled k postponed t i t' = t' ≡ record t { session_backlog = t.session_backlog ++ (i ∷ []) }
  Settled k success t i t' = t' ≡ t

  settle-Settled :
      (k : ℕ) (res : SessionResult) (t : ServerThread S) (i : ℕ)
      → IsValid k t.session_pool
      → length (pooled k t.session_pool) + 2 < 2 * 2 ^ k
      → (t' : ServerThread S) × (settle res t i ≡ ok t') × Settled k res t i t'
  unfolding settle Settled
  settle-Settled k failure t i valid room = close_session-Released k t i valid room
  settle-Settled k postponed t i valid room =
      (record t { session_backlog = t.session_backlog ++ (i ∷ []) }, refl, refl)
  settle-Settled k success t i valid room = (t, refl, refl)

module _ {S : Type 0} (store : Store S) (junk : ℕ → ℕ) (matcher : Matcher) where
  -- Without flags process fails.
  closed_at_once :
      (thread : ℕ) (c : Conn S)
      → process store thread junk matcher 0 c
        ≡ ok (failure, record c { session = record c.session { postponed_epoll_flags = 0 } })
  unfolding process then_output
  closed_at_once thread c = refl

  run_session-fails :
      (t : ServerThread S) (i : ℕ)
      → run_session store junk matcher t i 0
        ≡ ok (
          failure,
          put_conn t i (record (conn_of t i) {
            session = record (t.sessions i) { postponed_epoll_flags = 0 };
          }),
        )
  unfolding run_session
  run_session-fails t i = rw (closed_at_once t.my_thread_id (conn_of t i)) refl

  -- What the loop over the backlog comes to on a session that fails at once.
  run_backlog-fails :
      (t' t'' : ServerThread S) (i : ℕ)
      → (t'.sessions i).postponed_epoll_flags ≡ 0
      → close_session
          (put_conn t' i (record (conn_of t' i) {
            session = record (t'.sessions i) { postponed_epoll_flags = 0 };
          }))
          i
        ≡ ok t''
      → run_backlog store junk matcher (i ∷ []) t' ≡ ok ([], t'')
  unfolding run_backlog settle_postponed
  run_backlog-fails t' t'' i flags e =
      let ran : run_session store junk matcher t' i (t'.sessions i).postponed_epoll_flags
          ≡ ok (
            failure,
            put_conn t' i (record (conn_of t' i) {
              session = record (t'.sessions i) { postponed_epoll_flags = 0 };
            }),
          ) =
        ap (run_session store junk matcher t' i) flags ∙ run_session-fails t' i in
      rw (ran, e) refl

module _ {S : Type 0} (store : Store S) (junk : ℕ → ℕ) (matcher : Matcher) (k : ℕ)
    (t : ServerThread S) (i events : ℕ) where
  -- If process returns for an event of a session, and the pool is valid and has room, the event
  -- is handled: a session that failed is closed, reset and pushed into the pool, one that was
  -- postponed is put behind the backlog, and otherwise nothing is done.
  pub handle_event-Settled :
      (res : SessionResult) (c : Conn S)
      → process store t.my_thread_id junk matcher events (conn_of t i) ≡ ok (res, c)
      → IsValid k t.session_pool
      → length (pooled k t.session_pool) + 2 < 2 * 2 ^ k
      → (t' : ServerThread S) × (handle_event store junk matcher t (some i, events) ≡ ok t')
        × Settled k res (put_conn t i c) i t'
  unfolding handle_event run_session
  handle_event-Settled res c ran valid room =
      let (t', e, s) = settle-Settled k res (put_conn t i c) i valid room in (t', rw ran e, s)

  -- If the backlog is one session, the pool is valid and has room for two more, and process fails
  -- for an event of the session, which has a socket, then after the event and the loop over the
  -- backlog the session is in the pool two times more, and its socket was closed twice.
  pub release-twice :
      (c : Conn S) (fd : ℕ)
      → t.session_backlog ≡ i ∷ []
      → process store t.my_thread_id junk matcher events (conn_of t i) ≡ ok (failure, c)
      → c.session.socket ≡ some fd
      → IsValid k t.session_pool
      → length (pooled k t.session_pool) + 3 < 2 * 2 ^ k
      → (t' : ServerThread S) × ((handle_event store junk matcher t (some i, events)
            >>= handle_backlog store junk matcher)
          ≡ ok t')
        × Perm (pooled k t'.session_pool) (i ∷ i ∷ pooled k t.session_pool)
        × (t'.closed ≡ fd ∷ fd ∷ t.closed)
  unfolding Settled handle_backlog
  release-twice c fd waits ran socket valid room =
      let (t1, handled, r1) = handle_event-Settled failure c ran valid (omega arith) in
      let t2 = put_conn t1 i (record (conn_of t1 i) {
        session = record (t1.sessions i) { postponed_epoll_flags = 0 };
      }) in
      let (t3, again, r2) =
        close_session-Released k t2 i r1.pool.valid (omega (arith, r1.pool.longer)) in
      let backlog : t1.session_backlog ≡ i ∷ [] =
        ap (λ (z : ServerThread S). z.session_backlog) r1.same ∙ waits in
      let looped : run_backlog store junk matcher t1.session_backlog t1 ≡ ok ([], t3) =
        ap (λ (l : List ℕ). run_backlog store junk matcher l t1) backlog
        ∙ run_backlog-fails store junk matcher t1 t3 i (reset_flags k t i c t1 r1) again in
      (
        record t3 { session_backlog = [] },
        rw (handled, looped) refl,
        Perm.trans r2.pool.added (Perm.cons i r1.pool.added),
        closed_once k t1 i _ t3 r2
            ∙ ap₂ close_fd (reset_socket k t i c t1 r1 ∙ socket)
                (closed_once k t i c t1 r1 ∙ ap (λ (s : Option ℕ). close_fd s t.closed) socket),
      )
