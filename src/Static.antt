-- ===== src/Static.antt =====
-- The static analysis of collectives, src/aSSA: what sequences of collectives the paths of a program
-- call, and where they differ.
pub mod Collectives
pub mod Lists
pub mod Flow
pub mod Warnings
pub mod Loops
pub mod Returns
mod Tests
