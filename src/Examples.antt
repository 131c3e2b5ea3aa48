-- ===== src/Examples.antt =====
-- Concrete runs of the components, and the theorems at inputs that meet their hypotheses.
pub mod Codec
mod Json
mod Read
mod Filter
mod Fields
mod Tui
mod Sqlite
mod Serialize
mod Session
mod Bitmap
