-- ===== src/StorageDevice/Tests.antt =====
-- Tests of the buddy allocator of src/lib/storage/storage_device/src/buffer_allocator.rs on a
-- source of eight bytes in blocks of two.
use fuchsia_storage.Shared.{ℕ, ◌≡◌, refl, [], ◌∷◌, none, some, arith}
use fuchsia_storage.StorageDevice.Rounding.{round_down, round_up}
use fuchsia_storage.StorageDevice.Allocator.{
  done, panic, Allocator, new, merge, give_back, order, order_fit, size_for_order, map_remove,
  try_allocate_buffer, free_buffer,
}
use fuchsia_storage.StorageDevice.Allocator.Cover.{cover_lists}
use fuchsia_storage.StorageDevice.Allocator.State.{IsValid}
use fuchsia_storage.StorageDevice.Allocator.Allocate.{IsAllocated, try_allocate-IsAllocated}
use fuchsia_storage.StorageDevice.Allocator.Free.{free-try_allocate}

abbrev fresh : Allocator
fresh = record {
  block_size = 2;
  source_size = 8;
  free_lists = [] ∷ [] ∷ (0 ∷ []) ∷ [];
  allocation_map = [];
}

-- After an allocation of three bytes.
abbrev used : Allocator
used = record fresh { free_lists = [] ∷ (4 ∷ []) ∷ [] ∷ []; allocation_map = (0, 4) ∷ [] }

new-fresh : new 2 8 ≡ done fresh
unfolding new
new-fresh = refl

new_uneven : new 3 8 ≡ panic
unfolding new
new_uneven = refl

rounded : (round_up 5 4 ≡ 8) × (round_up 8 4 ≡ 8) × (round_down 7 4 ≡ 4)
unfolding round_up round_down
rounded = (refl, refl, refl)

-- `order_fit` of one and a half blocks is the order of two.
order_fit_between : size_for_order (order_fit 3 2) 2 ≡ 4
unfolding order_fit
order_fit_between = refl

allocates : try_allocate_buffer fresh 3 ≡ done (used, some (0, 3))
unfolding try_allocate_buffer
allocates = refl

too_large : try_allocate_buffer fresh 9 ≡ panic
unfolding try_allocate_buffer
too_large = refl

full : try_allocate_buffer used 8 ≡ done (used, none)
unfolding try_allocate_buffer
full = refl

frees : free_buffer used 0 3 ≡ done fresh
unfolding free_buffer merge give_back map_remove order
frees = refl

fresh-IsValid : IsValid fresh
unfolding round_down
fresh-IsValid = record {
  log_block = 1;
  block = refl;
  covers = λ x. ground arith;
  aligned = (tt, (tt, (((0, refl), tt), tt)));
  recorded = tt;
}

used-IsValid : IsValid used
unfolding round_down
used-IsValid = record {
  log_block = 1;
  block = refl;
  covers = λ x. ground arith;
  aligned = (tt, (((1, refl), tt), (tt, tt)));
  recorded = ((1, omega arith, refl, (0, refl)), tt);
}

recorded_used : map_remove 0 used.allocation_map ≡ some (4, [])
unfolding map_remove
recorded_used = refl

try_allocate-IsAllocated_example : IsAllocated fresh used 3 0 3
try_allocate-IsAllocated_example = try_allocate-IsAllocated fresh used 3 0 3 fresh-IsValid allocates

free-try_allocate_example :
    (a : Allocator) × (free_buffer used 0 3 ≡ done a)
    × IsValid a
    × (a.allocation_map ≡ [])
    × ((x : ℕ) → cover_lists a.block_size x a.free_lists ≡ cover_lists 2 x fresh.free_lists)
free-try_allocate_example = free-try_allocate fresh used 3 0 3 fresh-IsValid allocates
