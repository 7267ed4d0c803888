-- ===== src/Tools.antt =====
-- The tools of the server application, apps/oracle-automate-server/src/tools.rs.
pub mod Answer
pub mod RestCall
pub mod Publish
pub mod Customer
pub mod Order
mod Tests
