-- ===== src/Kb.antt =====
-- crates/oracle-automate-kb: the documents, their trees of headings, and the store in memory.
pub mod Schema
pub mod Headings
pub mod Tree
pub mod Assemble
pub mod DocTree
pub mod Store
mod Tests
