-- ===== src/PageCache.antt =====
-- The page cache of EXAMS/cache_exam_30_01_2024/server.c.
pub mod Slots
pub mod Choice
mod Tests
