-- ===== src/Table.antt =====
-- src/LFLRUHashTable.h: the hash table with linear probing whose elements stand in one list of
-- recent use for each thread. The functions are the class's methods run by one thread while no
-- other changes what it reads: a retry that waits for another thread is `spin`. `Slots` has the
-- locks of the slots, `Probe` the searches, `Recent` the lists, `Expiry` the expiry times,
-- `Methods` the public methods.
pub mod State
pub mod Slots
pub mod Probe
pub mod Recent
pub mod Expiry
pub mod Methods
pub mod Locked
pub mod Walk
mod Range
mod Chain
mod Release
mod Touch
mod Move
mod Agree
pub mod Writes
pub mod Removals
pub mod Lookup
pub mod Faults
mod Destroyed
mod Tests
