-- ===== src/Strings.antt =====
-- The parts of Go's `strings`, `unicode` and `unicode/utf8` that the program calls, on byte strings.
pub mod Utf8
pub mod Search
pub mod Fields
pub mod Split
