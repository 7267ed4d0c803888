-- ===== src/Observability.antt =====
-- crates/oracle-automate-observability.
pub mod Audit
