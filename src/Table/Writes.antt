-- ===== src/Table/Writes.antt =====
-- What `set` and `insert` of src/LFLRUHashTable.h change.
pub mod Again
pub mod Found
pub mod Insert
pub mod Like
pub mod Set
pub mod Take
pub mod Tests
