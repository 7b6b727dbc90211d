-- ===== src/Vfs.antt =====
-- The pseudo file system library, src/lib/storage/vfs/rust/src.
pub mod Status
pub mod Flags
pub mod Common
pub mod Directory
pub mod PathString
pub mod File
pub mod Registry
pub mod Filesystem
pub mod Mutable
pub mod Open
pub mod Service
pub mod Scope
pub mod Tree
pub mod Watchers
mod Tests
