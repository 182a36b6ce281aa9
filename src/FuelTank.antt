-- ===== src/FuelTank.antt =====
-- The tank and the car of practice/thread_pool/server.c.
pub mod System
pub mod Level
mod Tests
