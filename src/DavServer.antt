-- ===== src/DavServer.antt =====
-- The job server of lab14_DAv/server.c.
pub mod State
pub mod System
pub mod Names
pub mod Ids
pub mod Limit
mod Tests
