-- ===== src/BlockClient/Cache/Write.antt =====
-- `Cache::write_at` of src/lib/storage/block_client/rust/src/cache.rs.
use fuchsia_storage.Shared.{
  ℕ, zero, suc, ◌+◌, ◌-◌, ◌%◌, ◌/◌, min, true, List, length, take, drop, leb, ltb, if◌then◌else◌,
}
use fuchsia_storage.BlockClient.Cache.{
  Device, Cache, Outcome, done, failed, exceeds_device_size, out_of_fuel, block_size, ◌>>=◌,
  get_block, read_block, vmo_write, insert_entry, exceeds,
}

module _ {D : Type 0} (dev : Device D) where
  -- Part of a block is overwritten: the block is read first.
  unfoldable pub write_piece : Cache D → ℕ → ℕ → List ℕ → Cache D × Outcome Unit
  unfolding ◌>>=◌ read_block vmo_write
  write_piece c aligned skip buf =
      read_block dev c aligned true >>= λ c' vmo_offset. vmo_write dev c' buf (vmo_offset + skip)

  -- The head. Returned are the next block and what the buffer has left.
  unfoldable pub write_head : Cache D → ℕ → ℕ → ℕ → List ℕ → Cache D × Outcome (ℕ × List ℕ)
  unfolding ◌>>=◌ write_piece
  write_head c aligned offset end buf =
      let to_copy = min (aligned + block_size) end - offset in
      if ltb aligned offset
      then (write_piece c aligned (offset - aligned) (take to_copy buf) >>= λ c' _.
          (c', done (aligned + block_size, drop to_copy buf)))
      else (c, done (aligned, buf))

  -- A whole block is overwritten: it is not read.
  unfoldable pub write_block : Cache D → ℕ → List ℕ → Cache D × Outcome Unit
  unfolding ◌>>=◌ get_block vmo_write insert_entry
  write_block c aligned buf = get_block dev c aligned true >>= λ c' found.
      vmo_write dev c' buf found.0 >>= λ c'' _.
      (if found.1 then c'' else insert_entry dev c'' aligned found.0 true, done tt)

  unfoldable pub write_blocks : ℕ → Cache D → ℕ → ℕ → List ℕ → Cache D × Outcome (ℕ × List ℕ)
  unfolding ◌>>=◌ write_block
  write_blocks zero c aligned end buf = (c, failed out_of_fuel)
  write_blocks (suc fuel) c aligned end buf =
      if leb (aligned + block_size) end
      then (write_block c aligned (take block_size buf) >>= λ c' _.
          write_blocks fuel c' (aligned + block_size) end (drop block_size buf))
      else (c, done (aligned, buf))

  unfoldable pub write_tail : Cache D → ℕ → ℕ → List ℕ → Cache D × Outcome Unit
  unfolding write_piece
  write_tail c aligned end buf =
      if ltb aligned end then write_piece c aligned 0 buf else (c, done tt)

  unfoldable pub write_at : Cache D → List ℕ → ℕ → Cache D × Outcome Unit
  unfolding ◌>>=◌ exceeds write_head write_blocks write_tail
  write_at c buf offset =
      if exceeds dev (length buf) offset
      then (c, failed exceeds_device_size)
      else (write_head c (offset - offset % block_size) offset (offset + length buf) buf
          >>= λ c1 head.
              write_blocks (suc (length buf / block_size)) c1 head.0 (offset + length buf) head.1
              >>= λ c2 rest. write_tail c2 rest.0 (offset + length buf) rest.1)
