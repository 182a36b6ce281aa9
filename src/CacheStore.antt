-- ===== src/CacheStore.antt =====
-- The cache of EXAMS/30.01.2024/server.c.
pub mod Slots
pub mod Rounds
pub mod Places
pub mod Full
pub mod Free
mod Tests
