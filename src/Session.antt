-- ===== src/Session.antt =====
-- src/Session.cpp: the session of a client. `State` has its data, `Input` the reading, `Output` the
-- sending, `Process` the handler of the events of its socket.
pub mod State
pub mod Input
pub mod Output
pub mod Process
mod Sent
mod Flow
mod Handled
mod Invariant
mod Served
mod Postponed
mod Forgotten
mod Reading
pub mod Tests
