-- ===== src/ThreadPool.antt =====
-- The thread pool of practice/thread_pool/pool.c: a thread that accepts clients, and four that
-- serve them.
pub mod Queue
pub mod System
pub mod Order
mod Tests
