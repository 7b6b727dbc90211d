-- ===== src/StorageDevice.antt =====
-- The block device buffers, src/lib/storage/storage_device/src.
pub mod Rounding
pub mod Slices
pub mod Power
pub mod Xor
pub mod Allocator
mod Tests
