-- ===== src/Planner.antt =====
-- The thread scheduler of Lab7_threads/practice/PLANNER/planner.c and planner.h.
pub mod Heap
pub mod Queues
pub mod Scheduler
pub mod Choice
pub mod Slices
mod Tests
