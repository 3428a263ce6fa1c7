-- ===== src/Thread.antt =====
-- src/ServerThread.cpp and src/Server.cpp: a thread's pool of sessions, its postponed sessions and
-- its datagrams. `State` has the data, the constructor and `addSession`, `Loop` a cycle of
-- `threadProc`, `Accept` the sockets that the server hands to its threads.
pub mod State
pub mod Loop
pub mod Accept
pub mod Datagrams
mod Pool
mod Release
mod Tests
