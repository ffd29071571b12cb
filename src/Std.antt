-- ===== src/Std.antt =====
-- The parts of Rust's standard library that the crates use.
pub mod HashMap
pub mod HashSet
pub mod Text
pub mod Word
