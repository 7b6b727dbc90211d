-- ===== src/StorageDevice/Allocator/Given.antt =====
-- What the freeing of a region keeps:
-- src/lib/storage/storage_device/src/buffer_allocator.rs.
use fuchsia_storage.Shared.{
  ℕ, ◌+◌, ◌*◌, ◌<◌, ◌≡◌, [], some, length, length-set, set, arith, inl, inr,
}
use fuchsia_storage.StorageDevice.Power.{pow2}
use fuchsia_storage.StorageDevice.Allocator.{
  done, Allocator, FreeLists, size_for_order, binary_search, insert_at, give_back, map_remove,
}
use fuchsia_storage.StorageDevice.Allocator.Cover.{
  hit, cover_lists, cover_lists-set, cover-binary_search, cover-insert_at, Search-cases,
}
use fuchsia_storage.StorageDevice.Allocator.Aligned.{
  Multiple, Aligned, Aligned-get, Aligned-set, AlignedList-insert_at,
}
use fuchsia_storage.StorageDevice.Allocator.State.{IsValid}
use fuchsia_storage.StorageDevice.Allocator.Steps.{hit_start}
use fuchsia_storage.StorageDevice.Allocator.Merge.{get_elem?-some}

-- What becomes of the lists when the region of `order` at `offset` goes back into them.
pub record IsGiven (b offset k : ℕ) (lists lists' : FreeLists) : Type 0 where
  pub covers :
      (x : ℕ) → cover_lists b x lists' ≡ cover_lists b x lists + hit (size_for_order k b) offset x
  pub aligned : Aligned b lists'
  pub same_length : length lists' ≡ length lists

-- It does go back where no free region covers its start.
pub give_back-IsGiven :
    (b offset k : ℕ) (lists : FreeLists)
    → 0 < size_for_order k b
    → k < length lists
    → cover_lists b offset lists ≡ 0
    → Multiple (size_for_order k b) offset
    → Aligned b lists
    → (lists' : FreeLists) × (give_back (lists, offset, k) ≡ done lists')
      × IsGiven b offset k lists lists'
unfolding give_back
give_back-IsGiven b offset k lists pos room bare m a =
    let (l, got) = get_elem?-some lists k room in
    elim (Search-cases (binary_search offset l)) [
      | inl (i, s) ↦ absurd (
          ground (
            arith,
            cover-binary_search offset (b * pow2 k) offset i l s,
            hit_start (b * pow2 k) offset pos,
            cover_lists-set b offset lists k l [] got,
          ))
      | inr (i, s) ↦ (
        set lists k (insert_at i offset l),
        ground arith,
        record {
          covers = λ x. omega (
            arith,
            cover_lists-set b x lists k l (insert_at i offset l) got,
            cover-insert_at offset (b * pow2 k) x i l,
          );
          aligned =
              Aligned-set b lists k (insert_at i offset l)
                (AlignedList-insert_at (b * pow2 k) i offset l m (Aligned-get b lists k l got a)) a;
          same_length = length-set lists k (insert_at i offset l);
        },
      )
    ]

-- What freeing the region that is recorded at `start` promises.
pub record IsFreed (a a' : Allocator) (start len : ℕ) : Type 0 where
  pub valid : IsValid a'
  pub same_source : (a'.source_size ≡ a.source_size) × (a'.block_size ≡ a.block_size)
  pub unrecorded : map_remove start a.allocation_map ≡ some (len, a'.allocation_map)
  pub released :
      (x : ℕ)
      → cover_lists a.block_size x a'.free_lists
        ≡ cover_lists a.block_size x a.free_lists + hit len start x
