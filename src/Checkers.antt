-- ===== src/Checkers.antt =====
-- The package bakery/checkers.
pub mod Caveat
pub mod Namespace
pub mod Registry
pub mod Macaroons
pub mod Declared
pub mod Time
