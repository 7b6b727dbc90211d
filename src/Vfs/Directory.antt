-- ===== src/Vfs/Directory.antt =====
-- Directories: src/lib/storage/vfs/rust/src/directory.
pub mod Flags
pub mod Entries
pub mod Simple
pub mod Dirent
pub mod Indexed
mod Tests
