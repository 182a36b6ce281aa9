-- ===== src/CommandQueue.antt =====
-- The first program of EXAMS/01_02_2023/server.c: commands of three children pass through a pipe and
-- a list of four places to two workers.
pub mod System
pub mod Order
pub mod Pipe
mod Tests
