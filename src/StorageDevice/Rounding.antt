-- ===== src/StorageDevice/Rounding.antt =====
-- Rounding and ranges: src/lib/storage/storage_device/src/buffer.rs. A `usize` is a number; no sum
-- here passes 2^64 for a buffer that fits in memory.
use fuchsia_storage.Shared.{ℕ, ◌+◌, ◌-◌, ◌%◌}

unfoldable pub round_down : ℕ → ℕ → ℕ
round_down value granularity = value - value % granularity

unfoldable pub round_up : ℕ → ℕ → ℕ
unfolding round_down
round_up value granularity = round_down (value + granularity - 1) granularity
