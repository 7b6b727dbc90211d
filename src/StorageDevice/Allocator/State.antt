-- ===== src/StorageDevice/Allocator/State.antt =====
-- The invariant of the buddy allocator: src/lib/storage/storage_device/src/buffer_allocator.rs.
use fuchsia_storage.Shared.{
  ℕ, ◌+◌, ◌<◌, ◌≡◌, [], ◌∷◌, ltb, length, if◌then◌else◌, none, some, ◌==◌, arith, Option-cases,
  Bool-cases, inl, inr,
}
use fuchsia_storage.StorageDevice.Rounding.{round_down}
use fuchsia_storage.StorageDevice.Power.{pow2}
use fuchsia_storage.StorageDevice.Allocator.{
  Allocator, AllocationMap, size_for_order, map_remove, map_insert,
}
use fuchsia_storage.StorageDevice.Allocator.Cover.{cover_lists, cover_map}
use fuchsia_storage.StorageDevice.Allocator.Aligned.{Aligned, Multiple}

-- A recorded length is that of an order below `n`, and its offset is a multiple of it.
abbrev pub IsRegion : ℕ → ℕ → ℕ → ℕ → Type 0
IsRegion b n o w = (k : ℕ) × (k < n) × (w ≡ size_for_order k b) × Multiple w o

abbrev pub Recorded : ℕ → ℕ → AllocationMap → Type 0
Recorded b n [] = Unit {0}
Recorded b n ((o, w) ∷ m) = IsRegion b n o w × Recorded b n m

-- Each byte of the part of the source that whole blocks fill lies in exactly one region, free or
-- allocated, and no other byte lies in any; regions are aligned, and the block size is a power of
-- two.
pub record IsValid (a : Allocator) : Type 0 where
  pub log_block : ℕ
  pub block : a.block_size ≡ pow2 log_block
  pub covers :
      (x : ℕ)
      → cover_lists a.block_size x a.free_lists + cover_map x a.allocation_map
        ≡ (if ltb x (round_down a.source_size a.block_size) then 1 else 0)
  pub aligned : Aligned a.block_size a.free_lists
  pub recorded : Recorded a.block_size (length a.free_lists) a.allocation_map

pub Recorded-map_remove :
    (b n k : ℕ) (m : AllocationMap) (v : ℕ) (m' : AllocationMap)
    → map_remove k m ≡ some (v, m')
    → Recorded b n m
    → IsRegion b n k v × Recorded b n m'
unfolding map_remove
Recorded-map_remove b n k [] v m' h r = cc
Recorded-map_remove b n k ((j, u) ∷ m) v m' h r = elim (Bool-cases (j == k)) [
  | inl here ↦
      let same : (k ≡ j) × (v ≡ u) × (m' ≡ m) = ground arith in rw (same.0, same.1, same.2) r
  | inr further ↦ elim (Option-cases (map_remove k m)) [
    | inl e ↦ absurd (ground arith)
    | inr ((w, rest), e) ↦
        let same : (v ≡ w) × (m' ≡ (j, u) ∷ rest) = ground arith in
        let ih = Recorded-map_remove b n k m w rest e r.1 in rw (same.0, same.1) (ih.0, (r.0, ih.1))
  ]
]

pub Recorded-map_insert :
    (b n k v : ℕ) (m : AllocationMap)
    → map_remove k m ≡ none
    → IsRegion b n k v
    → Recorded b n m
    → Recorded b n (map_insert k v m)
unfolding map_insert
Recorded-map_insert b n k v m h i r = rw (h, map_insert) (i, r)
