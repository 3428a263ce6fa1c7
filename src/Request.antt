-- ===== src/Request.antt =====
-- src/RequestProcessor.cpp: the text protocol. `Info` has the data, `Header` the parser of a
-- header, `Commands` the commands, `Out` the output buffer, `Store` the table's methods that the
-- commands call, `Matcher` the search of a command's index. Here is the loop of `processRequest`.
pub mod Tickets
pub mod Info
pub mod Out
pub mod Store
pub mod Matcher
pub mod Solver
mod Solved
pub mod Header
pub mod Commands
pub mod Process
mod Rounds
mod Room
mod Replies
pub mod Stored
mod Parse
pub mod Ahead
pub mod Waits
pub mod Tests
pub mod Runs
