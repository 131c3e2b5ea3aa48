-- ===== src/Json.antt =====
-- src/json_escape.rs: JSON string escaping.
pub mod Escape
pub mod Strings
