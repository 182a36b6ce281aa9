-- ===== src/TimerPool.antt =====
-- The pool with a timer of practice/timer__/server.c.
pub mod System
pub mod Order
pub mod Endings
mod Tests
