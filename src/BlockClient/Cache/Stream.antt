-- ===== src/BlockClient/Cache/Stream.antt =====
-- `std::io::{Read, Write, Seek}` and `Drop` of the block cache:
-- src/lib/storage/block_client/rust/src/cache.rs.
use fuchsia_storage.Shared.{
  ℕ, suc, ◌+◌, ◌-◌, ◌^◌, min, false, List, [], ◌∷◌, Option, none, some, length, take, leb, ltb,
  if◌then◌else◌, ◌==◌, ℤ, pos, negsuc,
}
use fuchsia_storage.BlockClient.Cache.{
  Device, Cache, CacheEntry, Outcome, done, failed, bad_delta, ◌>>=◌, read_at, write_back,
}
use fuchsia_storage.BlockClient.Cache.Write.{write_at}

-- `checked_add` and `checked_sub` of u64.
unfoldable pub checked_add : ℕ → ℕ → Option ℕ
checked_add a b = if ltb (a + b) (2 ^ 64) then some (a + b) else none

unfoldable pub checked_sub : ℕ → ℕ → Option ℕ
checked_sub a b = if leb b a then some (a - b) else none

-- `self.map.entries()` with `entry.get_mut().dirty = false` at one key.
unfoldable pub mark_clean : ℕ → List (ℕ × CacheEntry) → List (ℕ × CacheEntry)
mark_clean offset [] = []
mark_clean offset ((k, entry) ∷ m) =
    (k, if k == offset then record entry { dirty = false } else entry) ∷ mark_clean offset m

pub data SeekFrom : Type 0 where
  start : ℕ → SeekFrom
  end current : ℤ → SeekFrom

-- A delta that is not negative is added, and the magnitude of one that is is taken away.
unfoldable pub move_by : ℕ → ℤ → Option ℕ
unfolding checked_add checked_sub
move_by from (pos n) = checked_add from n
move_by from (negsuc n) = checked_sub from (suc n)

module _ {D : Type 0} (dev : Device D) where
  -- `std::io::Read::read` with a buffer of `size` bytes.
  unfoldable pub read : Cache D → ℕ → Cache D × Outcome (List ℕ)
  unfolding ◌>>=◌ read_at
  read c size =
      if ltb dev.device_size c.offset
      then (c, done [])
      else (read_at dev c (min size (dev.device_size - c.offset)) c.offset >>= λ c' bytes.
          (record c' { offset = c'.offset + length bytes }, done bytes))

  -- `std::io::Write::write`, with how many bytes of the buffer it took.
  unfoldable pub write : Cache D → List ℕ → Cache D × Outcome ℕ
  unfolding ◌>>=◌ write_at
  write c buf =
      let kept = take (dev.device_size - c.offset) buf in
      if ltb dev.device_size c.offset
      then (c, done 0)
      else (write_at dev c kept c.offset >>= λ c' _.
          (record c' { offset = c'.offset + length kept }, done (length kept)))

  unfoldable pub flush_entry : Cache D → ℕ → CacheEntry → Cache D × Outcome Unit
  unfolding ◌>>=◌ write_back mark_clean
  flush_entry c offset entry =
      if entry.dirty
      then (write_back dev c offset entry >>= λ c' _.
          (record c' { map = mark_clean offset c'.map }, done tt))
      else (c, done tt)

  unfoldable pub flush_entries : Cache D → List (ℕ × CacheEntry) → Cache D × Outcome Unit
  unfolding ◌>>=◌ flush_entry
  flush_entries c [] = (c, done tt)
  flush_entries c ((offset, entry) ∷ rest) =
      flush_entry c offset entry >>= λ c' _. flush_entries c' rest

  -- `std::io::Write::flush`
  unfoldable pub flush : Cache D → Cache D × Outcome Unit
  unfolding flush_entries
  flush c = flush_entries c c.map

  -- `Drop::drop`: an error of the flush is logged. What is left of the device is returned.
  unfoldable pub drop_cache : Cache D → D
  unfolding flush
  drop_cache c = (flush c).0.device

  unfoldable pub target : Cache D → SeekFrom → Option ℕ
  unfolding move_by
  target c (start offset) = some offset
  target c (end delta) = move_by dev.device_size delta
  target c (current delta) = move_by c.offset delta

  unfoldable pub settle : Cache D → Option ℕ → Cache D × Outcome ℕ
  settle c none = (c, failed bad_delta)
  settle c (some offset) = (record c { offset = offset }, done offset)

  -- `std::io::Seek::seek`
  unfoldable pub seek : Cache D → SeekFrom → Cache D × Outcome ℕ
  unfolding target settle
  seek c from = settle c (target c from)
