-- ===== src/Vfs/Registry.antt =====
-- The two registries: src/lib/storage/vfs/rust/src/registry.
pub mod Inode
pub mod Token
mod Tests
