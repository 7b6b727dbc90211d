-- ===== src/BlockClient/Cache.antt =====
-- The block cache: src/lib/storage/block_client/rust/src/cache.rs. The device behind it, a
-- `RemoteBlockClientSync` and the server that it talks to, is the parameter `Device`; the VMO is
-- its bytes. The map is the list of its entries in the order of the `LinkedHashMap`, the least
-- recently used one first. Every operation takes the cache and returns it with its outcome, also
-- when it fails. `out_of_fuel` ends a loop whose fuel is used up. What `write_at` does is in
-- Cache/Write, and the `std::io` traits in Cache/Stream.
pub mod Write
pub mod Stream
pub mod Map
pub mod Sound
pub mod Rooms
pub mod Blocks
pub mod Get
pub mod Held
pub mod Load
pub mod ReadParts
pub mod Reads
pub mod Dirty
pub mod Pieces
pub mod Wrote
pub mod WriteParts
pub mod Writes
pub mod Clean
pub mod Flush
pub mod Contract
use fuchsia_storage.Shared.{
  ℕ, zero, suc, ◌<◌, ◌≡◌, ◌+◌, ◌-◌, ◌*◌, ◌%◌, ◌/◌, min, Bool, true, false, not, ◌&&◌, ◌||◌, List,
  [], ◌∷◌, ◌++◌, length, Option, none, some, leb, ltb, if◌then◌else◌, lookup, remove, ◌==◌,
}
use fuchsia_storage.BlockClient.Memory.{Memory, fill, contents, bytes_at}

pub data Error : Type 0 where
  exceeds_device_size device_error vmo_error bad_delta panic out_of_fuel : Error

pub data Outcome (A : Type 0) : Type 0 where
  done : A → Outcome A
  failed : Error → Outcome A

abbrev pub block_size : ℕ
block_size = 8192

abbrev pub vmo_size : ℕ
vmo_size = 262144

abbrev pub block_count : ℕ
block_count = 32

pub record CacheEntry : Type 0 where
  pub vmo_offset : ℕ
  pub dirty : Bool

pub record Stats : Type 0 where
  pub read_count : ℕ
  pub write_count : ℕ
  pub cache_hits : ℕ

abbrev pub no_stats : Stats
no_stats = record { read_count = 0; write_count = 0; cache_hits = 0 }

-- The device in one of its states `D`. A write takes what the VMO holds, a number of bytes and the
-- place on the device, and says whether it succeeded; a read says that and what it has left in the
-- VMO, which also a read that fails may have written to.
pub record Device (D : Type 0) : Type 0 where
  pub device_size : ℕ
  pub write_at : D → Memory → ℕ → ℕ → D × Bool
  pub read_at : D → ℕ → ℕ → D × Bool × Memory

-- What a client of a device relies on, `bytes d` being what it stores: a write that succeeds stores
-- the bytes and leaves the others, a read that succeeds returns what is stored, and no read changes
-- that.
pub record DeviceLaws {D : Type 0} (dev : Device D) : Type 0 where
  pub bytes : D → Memory
  pub write_done :
      (d : D) (source : Memory) (size offset a : ℕ)
      → (dev.write_at d source size offset).1 ≡ true
      → bytes (dev.write_at d source size offset).0 a ≡ fill (bytes d) offset size source a
  pub read_done :
      (d : D) (size offset i : ℕ)
      → (dev.read_at d size offset).1 ≡ true
      → i < size
      → (dev.read_at d size offset).2 i ≡ bytes d (offset + i)
  pub read_keeps : (d : D) (size offset a : ℕ) → bytes (dev.read_at d size offset).0 a ≡ bytes d a

pub record Cache (D : Type 0) : Type 0 where
  pub device : D
  pub vmo : Memory
  pub map : List (ℕ × CacheEntry)
  pub offset : ℕ
  pub stats : Stats

module _ {D A B : Type 0} where
  infixl 5 ◌>>=◌
  -- The operator `?`: an error ends the function, with the cache as it is then.
  unfoldable pub ◌>>=◌ :
      Cache D × Outcome A → (Cache D → A → Cache D × Outcome B) → Cache D × Outcome B
  (c, done a) >>= next = next c a
  (c, failed e) >>= next = (c, failed e)

-- `LinkedHashMap::insert`, and the move to the end that `get_refresh` makes.
unfoldable pub put_back : ℕ → CacheEntry → List (ℕ × CacheEntry) → List (ℕ × CacheEntry)
put_back offset entry m = remove offset m ++ (offset, entry) ∷ []

-- The underlying block size has to divide the cache's.
unfoldable pub new : {D : Type 0} → D → ℕ → Memory → Option (Cache D)
new d device_block_size vmo =
    if block_size % device_block_size == 0
    then some (record { device = d; vmo = vmo; map = []; offset = 0; stats = no_stats })
    else none

module _ {D : Type 0} (dev : Device D) where
  -- One block of the VMO sent to the device: in `get_block` and in `flush`.
  unfoldable pub write_back : Cache D → ℕ → CacheEntry → Cache D × Outcome Unit
  write_back c offset entry =
      let size = min block_size (dev.device_size - offset) in
      let sent = dev.write_at c.device (λ i. c.vmo (entry.vmo_offset + i)) size offset in
      let counted = record c.stats { write_count = c.stats.write_count + 1 } in
      (
        record c { device = sent.0; stats = counted },
        if sent.1 then done tt else failed device_error,
      )

  unfoldable pub cache_hit : Cache D → ℕ → Bool → CacheEntry → Cache D × Outcome (ℕ × Bool)
  unfolding put_back
  cache_hit c offset mark_dirty entry = (
    record c {
      stats = record c.stats { cache_hits = c.stats.cache_hits + 1 };
      map = put_back offset (record entry { dirty = mark_dirty || entry.dirty }) c.map;
    },
    done (entry.vmo_offset, true),
  )

  -- `pop_front`, then the block's bytes to the device if they are dirty.
  unfoldable pub evict : Cache D → List (ℕ × CacheEntry) → Cache D × Outcome (ℕ × Bool)
  unfolding ◌>>=◌ write_back
  evict c [] = (c, failed panic)
  evict c ((offset, entry) ∷ rest) =
      let popped = record c { map = rest } in
      if entry.dirty
      then (write_back popped offset entry >>= λ c' _. (c', done (entry.vmo_offset, false)))
      else (popped, done (entry.vmo_offset, false))

  unfoldable pub make_room : Cache D → Cache D × Outcome (ℕ × Bool)
  unfolding evict
  make_room c =
      if ltb (length c.map) block_count
      then (c, done (length c.map * block_size, false))
      else evict c c.map

  unfoldable pub find_block : Cache D → ℕ → Bool → Option CacheEntry → Cache D × Outcome (ℕ × Bool)
  unfolding cache_hit make_room
  find_block c offset mark_dirty (some entry) = cache_hit c offset mark_dirty entry
  find_block c offset mark_dirty none = make_room c

  -- The place of a block in the VMO, and whether the block is there already.
  unfoldable pub get_block : Cache D → ℕ → Bool → Cache D × Outcome (ℕ × Bool)
  unfolding find_block lookup
  get_block c offset mark_dirty = find_block c offset mark_dirty (lookup offset c.map)

  unfoldable pub insert_entry : Cache D → ℕ → ℕ → Bool → Cache D
  unfolding put_back
  insert_entry c offset vmo_offset dirty = record c {
    map = put_back offset (record { vmo_offset = vmo_offset; dirty = dirty }) c.map;
  }

  -- The read of a block that is not there.
  unfoldable pub load_block : Cache D → ℕ → Bool → ℕ → Cache D × Outcome ℕ
  unfolding insert_entry
  load_block c offset mark_dirty vmo_offset =
      let size = min block_size (dev.device_size - offset) in
      let answer = dev.read_at c.device size offset in
      let loaded = record c {
        device = answer.0;
        vmo = fill c.vmo vmo_offset size answer.2;
        stats = record c.stats { read_count = c.stats.read_count + 1 };
      } in
      if answer.1
      then (insert_entry loaded offset vmo_offset mark_dirty, done vmo_offset)
      else (loaded, failed device_error)

  unfoldable pub read_block : Cache D → ℕ → Bool → Cache D × Outcome ℕ
  unfolding ◌>>=◌ get_block load_block
  read_block c offset mark_dirty = get_block c offset mark_dirty >>= λ c' found.
      if found.1 then (c', done found.0) else load_block c' offset mark_dirty found.0

  -- `Vmo::read` and `Vmo::write` refuse what lies beyond the end of the VMO.
  unfoldable pub vmo_read : Cache D → ℕ → ℕ → Cache D × Outcome (List ℕ)
  unfolding bytes_at
  vmo_read c size offset =
      if leb (offset + size) vmo_size
      then (c, done (bytes_at c.vmo offset size))
      else (c, failed vmo_error)

  unfoldable pub vmo_write : Cache D → List ℕ → ℕ → Cache D × Outcome Unit
  vmo_write c buf offset =
      if leb (offset + length buf) vmo_size
      then (record c { vmo = fill c.vmo offset (length buf) (contents buf) }, done tt)
      else (c, failed vmo_error)

  -- `size` bytes of the block at `aligned`, from its byte `skip` on.
  unfoldable pub read_piece : Cache D → ℕ → ℕ → ℕ → Cache D × Outcome (List ℕ)
  unfolding ◌>>=◌ read_block vmo_read
  read_piece c aligned skip size =
      read_block c aligned false >>= λ c' vmo_offset. vmo_read c' size (vmo_offset + skip)

  -- The head. Returned are the next block and the bytes.
  unfoldable pub read_head : Cache D → ℕ → ℕ → ℕ → Cache D × Outcome (ℕ × List ℕ)
  unfolding ◌>>=◌ read_piece
  read_head c aligned offset end =
      if ltb aligned offset
      then (read_piece c aligned (offset - aligned) (min (aligned + block_size) end - offset)
          >>= λ c' bytes. (c', done (aligned + block_size, bytes)))
      else (c, done (aligned, []))

  -- The loop over whole blocks.
  unfoldable pub read_blocks : ℕ → Cache D → ℕ → ℕ → Cache D × Outcome (ℕ × List ℕ)
  unfolding ◌>>=◌ read_piece
  read_blocks zero c aligned end = (c, failed out_of_fuel)
  read_blocks (suc fuel) c aligned end =
      if leb (aligned + block_size) end
      then (read_piece c aligned 0 block_size >>= λ c' bytes.
          read_blocks fuel c' (aligned + block_size) end >>= λ c'' more.
          (c'', done (more.0, bytes ++ more.1)))
      else (c, done (aligned, []))

  -- The tail is what the buffer has left, `end - aligned` bytes.
  unfoldable pub read_tail : Cache D → ℕ → ℕ → Cache D × Outcome (List ℕ)
  unfolding read_piece
  read_tail c aligned end =
      if ltb aligned end then read_piece c aligned 0 (end - aligned) else (c, done [])

  unfoldable pub exceeds : ℕ → ℕ → Bool
  exceeds size offset = not (leb offset dev.device_size && leb size (dev.device_size - offset))

  -- `read_at` with a buffer of `size` bytes. A round of the loop takes a block of the buffer, so
  -- its size in blocks and one is enough fuel.
  unfoldable pub read_at : Cache D → ℕ → ℕ → Cache D × Outcome (List ℕ)
  unfolding ◌>>=◌ exceeds read_head read_blocks read_tail
  read_at c size offset =
      if exceeds size offset
      then (c, failed exceeds_device_size)
      else (read_head c (offset - offset % block_size) offset (offset + size) >>= λ c1 head.
          read_blocks (suc (size / block_size)) c1 head.0 (offset + size) >>= λ c2 whole.
          read_tail c2 whole.0 (offset + size) >>= λ c3 tail.
          (c3, done (head.1 ++ (whole.1 ++ tail))))
