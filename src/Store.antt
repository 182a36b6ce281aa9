-- ===== src/Store.antt =====
-- The shop of EXAMS/examen_29_09_2024_STORE/server.c: customers buy products by id, a thread takes
-- sold-out products off the list, an administrator changes stock and prices.
pub mod State
pub mod Stock
pub mod Handler
pub mod Admin
pub mod Load
pub mod Sales
pub mod Deletion
pub mod Prices
mod Tests
