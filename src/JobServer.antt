-- ===== src/JobServer.antt =====
-- The job server of EXAMS/PART2_lab14/server.c: clients start, watch and kill shell commands.
pub mod State
pub mod Launch
pub mod Commands
pub mod Handler
pub mod System
pub mod Listing
pub mod Rules
pub mod Capacity
pub mod Mutexes
pub mod Decay
pub mod Starvation
pub mod Jobs
mod Tests
