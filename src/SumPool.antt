-- ===== src/SumPool.antt =====
-- The sums of files by three threads, EXAMS/restanta_30_06_2023/server_semaphore.c.
pub mod Tasks
pub mod System
pub mod Sums
pub mod Ledger
pub mod Lost
mod Tests
