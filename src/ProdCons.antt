-- ===== src/ProdCons.antt =====
-- The bounded buffer of Lab7_threads/lin_Exercises/7-prodcons/prodcons.c.
pub mod Buffer
pub mod System
pub mod Invariant
pub mod Progress
mod Tests
