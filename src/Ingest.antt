-- ===== src/Ingest.antt =====
-- crates/oracle-automate-ingest: the crawler's rate limiter, robots.txt and the chunker.
pub mod RateLimit
pub mod Robots
pub mod Chunker
