-- ===== src/ParallelFgrep.antt =====
-- The search of a file by four threads, Lab7_threads/lin_Exercises/4-pfgrep/parallel_fgrep.c, and by
-- one, serial_fgrep.c beside it.
pub mod Count
pub mod Chunks
pub mod Occurrences
pub mod Equivalence
mod Tests
pub mod Ends
