-- ===== src/Session.antt =====
-- src/session: the state behind the packet list of the terminal interface.
pub mod Pass
pub mod Bitmap
