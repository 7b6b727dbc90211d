-- ===== src/BlockClient/Cache/Blocks.antt =====
-- `get_block` and `read_block` of the block cache: src/lib/storage/block_client/rust/src/cache.rs.
use fuchsia_storage.Shared.{
  ℕ, suc, ◌-◌, ◌*◌, ◌%◌, min, ◌<◌, ◌≤◌, ◌≡◌, refl, Bool, true, false, none, some, length, lookup,
  if◌then◌else◌,
}
use fuchsia_storage.BlockClient.Memory.{Memory}
use fuchsia_storage.BlockClient.Cache.{
  Device, DeviceLaws, Cache, CacheEntry, Outcome, done, failed, block_size, block_count, ◌>>=◌,
}
use fuchsia_storage.BlockClient.Cache.Sound.{view, IsFree, IsSound}

-- What holds of an outcome: `P` if it is done, and `E` if it failed. With ⊥ for `E` it is done.
abbrev pub Ensures : {D A : Type 0} → Type 0 → (Cache D → A → Type 0) → Cache D × Outcome A → Type 0
Ensures E P (c, done a) = P c a
Ensures E P (c, failed e) = E

module _ {D A B : Type 0} (E : Type 0) (P : Cache D → A → Type 0) (Q : Cache D → B → Type 0) where
  -- The rule for `?`.
  pub >>=-Ensures :
      (m : Cache D × Outcome A) (next : Cache D → A → Cache D × Outcome B)
      → Ensures E P m
      → ((c : Cache D) (a : A) → P c a → Ensures E Q (next c a))
      → Ensures E Q (m >>= next)
  unfolding ◌>>=◌
  >>=-Ensures (c, done a) next h k = k c a h
  >>=-Ensures (c, failed e) next h k = h

-- The rule for a test.
pub Ensures-if :
    {D A : Type 0} (E : Type 0) (P : Cache D → A → Type 0) (b : Bool) (m n : Cache D × Outcome A)
    → (b ≡ true → Ensures E P m)
    → (b ≡ false → Ensures E P n)
    → Ensures E P (if b then m else n)
Ensures-if E P true m n h k = h refl
Ensures-if E P false m n h k = k refl

-- The calls that the cache makes: for a block that starts within the device, as far as the device
-- goes.
abbrev pub IsBlockCall : {D : Type 0} → Device D → ℕ → ℕ → Type 0
IsBlockCall dev size offset =
    (offset % block_size ≡ 0)
    × (offset < dev.device_size)
    × (size ≡ min block_size (dev.device_size - offset))

-- Such a call of the device that fails gives `E`.
pub record OnFailure {D : Type 0} (dev : Device D) (E : Type 0) : Type 0 where
  pub write_fails :
      (d : D) (source : Memory) (size offset : ℕ)
      → IsBlockCall dev size offset
      → (dev.write_at d source size offset).1 ≡ false
      → E
  pub read_fails :
      (d : D) (size offset : ℕ)
      → IsBlockCall dev size offset
      → (dev.read_at d size offset).1 ≡ false
      → E

module _ {D : Type 0} (dev : Device D) (laws : DeviceLaws dev) where
  -- The bytes that the cache stands for.
  abbrev pub bytes_of : Cache D → Memory
  bytes_of c = view (laws.bytes c.device) c.vmo c.map

  abbrev pub Holds : ℕ → Cache D → Type 0
  Holds n c = IsSound dev.device_size n (laws.bytes c.device) c.vmo c.map

  -- The cache is sound, has at most 32 blocks, and the first ones of the VMO.
  abbrev pub IsValid : Cache D → Type 0
  IsValid c = Holds (length c.map) c × (length c.map ≤ block_count)

  abbrev pub SameBytes : Cache D → Cache D → Type 0
  SameBytes c c' = (a : ℕ) → a < dev.device_size → bytes_of c' a ≡ bytes_of c a

  -- The block `k`, which the cache does not hold, may have the place `slot`.
  pub record IsRoom (c c' : Cache D) (k slot : ℕ) : Type 0 where
    pub holds : Holds (suc (length c'.map)) c'
    pub below : suc (length c'.map) ≤ block_count
    pub free : IsFree slot c'.map
    pub aligned : slot % block_size ≡ 0
    pub inside : slot < suc (length c'.map) * block_size
    pub absent : lookup k c'.map ≡ none
    pub same : SameBytes c c'

  -- The block `k` is at `slot`, and is dirty if it is to be.
  pub record IsHeld (c c' : Cache D) (k slot : ℕ) (mark_dirty : Bool) : Type 0 where
    pub valid : IsValid c'
    pub entry : CacheEntry
    pub there : lookup k c'.map ≡ some entry
    pub at_slot : entry.vmo_offset ≡ slot
    pub marked : mark_dirty ≡ true → entry.dirty ≡ true
    pub same : SameBytes c c'

  -- What `get_block` finds: the block, or a place for it.
  abbrev pub Found : Cache D → ℕ → Bool → Cache D → ℕ × Bool → Type 0
  Found c k mark_dirty c' (slot, true) = IsHeld c c' k slot mark_dirty
  Found c k mark_dirty c' (slot, false) = IsRoom c c' k slot
