-- ===== src/Record.antt =====
-- src/record: the table file.
pub mod Bitmap
pub mod MvccMap
pub mod FileHandle
pub mod Scan
pub mod Layout
