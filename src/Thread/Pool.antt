-- ===== src/Thread/Pool.antt =====
-- Where the sessions of src/ServerThread.cpp are: in the pool, or taken from it.
use mathlib.Core.List.{Perm, perm_middle}
use mathlib.Core.List.Perm
use yamemcached.Base.{
  append-nil, ℕ, zero, suc, ◌+◌, ◌*◌, ◌^◌, ◌<◌, ◌≡◌, refl, ap, ◌∙◌, subst, Bool, false, Option,
  none, some, List, [], ◌∷◌, ◌++◌, length, ok, update, arith,
}
use yamemcached.LaneQueue.{LaneQueue, pop}
use yamemcached.LaneQueue.Views.{IsValid, view}
use yamemcached.LaneQueue.Refine.{pop_refines}
use yamemcached.LaneQueue.Items.{items, init_lem, pop-items, Taken}
use yamemcached.LaneQueue.Room.{push-Pushed}
use yamemcached.Request.Info.{reset}
use yamemcached.Session.State.{Socket}
use yamemcached.Thread.State.{
  ServerThread, max_clients_per_thread, push_sessions, made_thread, new_thread, add_session,
}

-- What is in a pool, in some order.
abbrev pub pooled : ℕ → LaneQueue ℕ → List ℕ
pooled k pool = items (view k pool)

-- The numbers of `left` sessions from `i` on.
unfoldable pub count_up : ℕ → ℕ → List ℕ
count_up zero i = []
count_up (suc left) i = i ∷ count_up left (i + 1)

push_sessions_lem :
    (k left i : ℕ) (pool : LaneQueue ℕ)
    → IsValid k pool
    → length (pooled k pool) + left + 1 < 2 * 2 ^ k
    → (pool' : LaneQueue ℕ) × (push_sessions left i pool ≡ ok pool')
      × IsValid k pool'
      × Perm (pooled k pool') (count_up left i ++ pooled k pool)
unfolding push_sessions count_up
push_sessions_lem k zero i pool valid room = (pool, refl, valid, Perm.refl _)
push_sessions_lem k (suc left) i pool valid room =
    let (pool1, pushed, p) = push-Pushed k pool i valid (omega arith) in
    let (pool', ran, valid', all) =
      push_sessions_lem k left (i + 1) pool1 p.valid (omega (arith, p.longer)) in
    (
      pool',
      rw (pushed, ran) refl,
      valid',
      Perm.trans all (
          Perm.trans (Perm.append_left (count_up left (i + 1)) p.added)
            (perm_middle (count_up left (i + 1)) (pooled k pool))),
    )

-- The constructor of a thread ends, with each of the numbers of the 4096 sessions once in a valid
-- pool, and none postponed.
pub new_thread-pooled :
    {S : Type 0} (junk : ℕ → ℕ) (sockets : ℕ → Socket) (store : S)
    → (t : ServerThread S) × (new_thread junk sockets store ≡ ok t)
      × IsValid 12 t.session_pool
      × Perm (pooled 12 t.session_pool) (count_up max_clients_per_thread 0)
      × (t.session_backlog ≡ [])
unfolding new_thread
new_thread-pooled junk sockets store =
    let (pool, made, valid, none_yet) = init_lem 12 junk (omega arith) (omega arith) in
    let (pool', ran, valid', all) =
      push_sessions_lem 12 4096 0 pool valid (rw none_yet (omega arith)) in
    (
      made_thread pool' sockets store,
      rw (made, ran) refl,
      valid',
      subst (λ (xs : List ℕ). Perm (pooled 12 pool') xs)
          (ap (λ (ys : List ℕ). count_up max_clients_per_thread 0 ++ ys) none_yet
            ∙ append-nil (count_up max_clients_per_thread 0))
          all,
      refl,
    )

module _ {S : Type 0} (k : ℕ) (added : Bool) (t : ServerThread S) (client : Option ℕ) where
  -- What `addSession` comes to on an open thread.
  pub data Added : Bool × ServerThread S → Type 0 where
    no_session :
        (pool : LaneQueue ℕ)
        → IsValid k pool
        → pooled k t.session_pool ≡ []
        → pooled k pool ≡ []
        → Added (false, record t { session_pool = pool })
    took :
        (i : ℕ) (pool : LaneQueue ℕ)
        → IsValid k pool
        → Perm (pooled k t.session_pool) (i ∷ pooled k pool)
        → Added (
          added,
          record t {
            session_pool = pool;
            sessions = update t.sessions i (record (t.sessions i) {
              socket = client;
              request_info = reset (t.sessions i).request_info;
            });
          },
        )

  with_popped :
      (fd : ℕ) (o : Option ℕ) (pool : LaneQueue ℕ)
      → t.epoll_fd ≡ some fd
      → pop t.session_pool ≡ ok (o, pool)
      → IsValid k pool
      → Taken o (pooled k t.session_pool) (pooled k pool)
      → (r : Bool × ServerThread S) × (add_session added t client ≡ ok r) × Added r
  unfolding add_session
  with_popped fd none pool is_open popped valid (was, now) =
      (_, rw (is_open, popped) refl, no_session pool valid was now)
  with_popped fd (some i) pool is_open popped valid taken =
      (_, rw (is_open, popped) refl, took i pool valid taken)

  -- On a thread with an open epoll file and a valid pool, addSession ends: it takes one session
  -- out of the pool, sets its socket, resets its request and says what epoll_ctl says, or fails
  -- where the pool is empty.
  pub add_session-Added :
      (fd : ℕ)
      → t.epoll_fd ≡ some fd
      → IsValid k t.session_pool
      → (r : Bool × ServerThread S) × (add_session added t client ≡ ok r) × Added r
  add_session-Added fd is_open valid =
      let (r, popped, valid', same) = pop_refines k t.session_pool valid in
      with_popped fd r.0 r.1 is_open popped valid' (pop-items k t.session_pool valid r.0 r.1 popped)
