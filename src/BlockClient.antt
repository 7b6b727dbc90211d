-- ===== src/BlockClient.antt =====
-- The block client, src/lib/storage/block_client/rust/src: the bytes of a device or of a VMO, the
-- cache in front of a device, and the requests in flight.
pub mod Memory
pub mod Cache
pub mod Fifo
mod Tests
