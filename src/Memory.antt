-- ===== src/Memory.antt =====
-- crates/oracle-automate-memory/src/lib.rs: the entries of the four tiers, the working and the
-- episodic memory, and the `MemoryManager` over both.
pub mod Entry
pub mod Working
pub mod Episodic
pub mod Manager
mod Tests
