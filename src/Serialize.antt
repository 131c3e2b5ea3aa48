-- ===== src/Serialize.antt =====
-- src/serialize.rs: how packets are written.
pub mod Timestamp
pub mod Loops
pub mod Gregorian
pub mod Calendar
