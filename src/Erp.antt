-- ===== src/Erp.antt =====
-- crates/oracle-automate-erp: the error taxonomy, retry and circuit breaking.
pub mod Error
pub mod Circuit
pub mod Retry
pub mod Message
pub mod Transaction
pub mod Metadata
pub mod Cache
pub mod Mock
