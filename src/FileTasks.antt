-- ===== src/FileTasks.antt =====
-- EXAMS/30.01.2023/server.c: threads that write files and sum them up, with a list of the files in
-- use.
pub mod Files
pub mod Tasks
pub mod System
pub mod Search
pub mod Sharing
mod Tests
