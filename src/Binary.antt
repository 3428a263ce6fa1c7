-- ===== src/Binary.antt =====
-- src/YAMBinaryProtocolProcessor.cpp: the binary protocol. `Header` has the header of a request and
-- of a reply, `Commands` the commands and `processBinaryRequest`.
mod Quiet
pub mod Header
pub mod Commands
mod Frames
mod Answers
mod Whole
mod Tests
