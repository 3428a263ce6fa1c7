-- ===== src/Table/Removals.antt =====
-- `remove` of src/LFLRUHashTable.h where the slot behind the chain of the key is free.
pub mod Slots
pub mod Lost
pub mod Faults
pub mod Evicted
pub mod Rounds
mod Tests
