-- ===== src/Thread/Accept.antt =====
-- The loop of `threadProc` of src/Server.cpp, which hands each accepted socket to the next thread.
use yamemcached.Base.{
  ℕ, ◌+◌, ◌%◌, ◌^◌, Bool, Option, List, Outcome, ok, fault, ◌==◌, ◌>>=◌, ltb, if◌then◌else◌, update,
}
use yamemcached.Thread.State.{ServerThread, add_session}
use yamemcached.Thread.Loop.{close_fd}

-- The fields of `Server` that the loop uses, and the sockets that it closed.
pub record Server (S : Type 0) : Type 0 where
  pub num_threads : ℕ
  pub next_thread_idx : ℕ
  pub server_threads : ℕ → ServerThread S
  pub closed : List ℕ

-- `numCpus < numThreads ? numCpus : numThreads` of `start`
unfoldable pub started_threads : ℕ → ℕ → ℕ
started_threads num_cpus num_threads = if ltb num_cpus num_threads then num_cpus else num_threads

module _ {S : Type 0} where
  -- A result of `accept`; `none` is -1, which goes on as a socket does. Where `addSession` does not
  -- give 0, the socket is closed.
  unfoldable pub hand_over : Bool → Server S → Option ℕ → Outcome (Server S)
  hand_over added server client =
      let thread_id = server.next_thread_idx % server.num_threads in
      if server.num_threads == 0
      then fault
      else (add_session added (server.server_threads thread_id) client >>= λ r. ok (record server {
        next_thread_idx = (server.next_thread_idx + 1) % 2 ^ 64;
        server_threads = update server.server_threads thread_id r.1;
        closed = if r.0 then server.closed else close_fd client server.closed;
      }))
