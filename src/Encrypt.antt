-- ===== src/Encrypt.antt =====
-- The encrypting children of EXAMS/encrypted_2023/server.c.
pub mod Key
pub mod Pipes
pub mod Digits
pub mod Ends
mod Tests
