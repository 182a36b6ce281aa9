-- ===== src/TinyShell.antt =====
-- The shell of LAB3/lab3_ex/TINY_SHELL/tiny_shell.c.
pub mod Words
pub mod Shell
pub mod Trimming
pub mod Commands
pub mod Pipes
mod Tests
