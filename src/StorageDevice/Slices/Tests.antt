-- ===== src/StorageDevice/Slices/Tests.antt =====
-- Tests of references into a buffer, of src/lib/storage/storage_device/src/buffer.rs.
use fuchsia_storage.Shared.{ℕ, ◌≡◌, refl, List, [], ◌∷◌, arith}
use fuchsia_storage.StorageDevice.Allocator.{done, panic, assert}
use fuchsia_storage.StorageDevice.Slices.{
  included, excluded, unbounded, subrange, BufferRef, subslice,
}
use fuchsia_storage.StorageDevice.Slices.Views.{IsView}

abbrev memory : List ℕ
memory = 10 ∷ 11 ∷ 12 ∷ 13 ∷ 14 ∷ []

abbrev reference : BufferRef
reference = record { slice = 11 ∷ 12 ∷ 13 ∷ []; range = record { start = 1; end = 4 } }

-- The example of the comment on `subrange`.
documented :
    subrange (record { start = 100; end = 200 }) (included 20) (excluded 30)
    ≡ done (record { start = 120; end = 130 })
unfolding subrange assert
documented = refl

past_end : subslice reference unbounded (excluded 4) ≡ panic
unfolding subslice
past_end = refl

reference-IsView : IsView memory reference
reference-IsView = record { ordered = omega arith; inside = omega arith; shows = refl }
