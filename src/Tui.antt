-- ===== src/Tui.antt =====
-- src/tui: the state of the terminal interface.
pub mod Cursor
