-- ===== src/Sqlite.antt =====
-- src/sqlite: the export of packets into a database.
pub mod Depth
pub mod Nested
