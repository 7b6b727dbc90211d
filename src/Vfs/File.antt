-- ===== src/Vfs/File.antt =====
-- Files: src/lib/storage/vfs/rust/src/file.
pub mod Flags
pub mod Connection
pub mod VmoFile
mod Tests
