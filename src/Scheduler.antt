-- ===== src/Scheduler.antt =====
-- crates/oracle-automate-scheduler/src/lib.rs: cadences, and the firing of declared jobs.
pub mod Cadence
pub mod Firing
mod Tests
