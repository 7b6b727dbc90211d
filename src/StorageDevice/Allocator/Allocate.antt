-- ===== src/StorageDevice/Allocator/Allocate.antt =====
-- Allocation and the regions: src/lib/storage/storage_device/src/buffer_allocator.rs.
use fuchsia_storage.Shared.{ℕ, ◌+◌, ◌≤◌, ◌<◌, ◌≡◌, subst, refl, Option, none, some, arith}
use fuchsia_storage.StorageDevice.Power.{pow2_pos}
use fuchsia_storage.StorageDevice.Allocator.{
  done, Allocator, pick, drop_lists, order, size_for_order, map_remove, map_insert, allocate_at,
  allocate_picked, try_allocate_buffer, sub_slice, to_buffer,
}
use fuchsia_storage.StorageDevice.Allocator.Cover.{
  hit, cover_lists, done-injective, >>=-eq_done, assert-eq_done,
}
use fuchsia_storage.StorageDevice.Allocator.Orders.{order-IsLeast}
use fuchsia_storage.StorageDevice.Allocator.State.{IsValid}
use fuchsia_storage.StorageDevice.Allocator.Steps.{
  Steps, allocate_at-Steps, not_recorded, after, after-IsValid, after_covers, pick-le,
}

pub block_size_pos : (a : Allocator) → IsValid a → 0 < a.block_size
block_size_pos a v = rw v.block (pow2_pos v.log_block)

-- What a successful allocation of a buffer promises: the new state is valid, of the same source and
-- block size; the buffer has the size
-- that was asked for, within the source; its start is recorded with a region that holds it, which
-- starts at a multiple of its length; and no byte of it is free.
pub record IsAllocated (a a' : Allocator) (size start end : ℕ) : Type 0 where
  pub valid : IsValid a'
  pub same_source : (a'.source_size ≡ a.source_size) × (a'.block_size ≡ a.block_size)
  pub extent : end ≡ start + size
  pub inside : end ≤ a.source_size
  pub recorded :
      a'.allocation_map
      ≡ map_insert start (size_for_order (order size a.block_size) a.block_size) a.allocation_map
  pub new_start : map_remove start a.allocation_map ≡ none
  pub holds : size ≤ size_for_order (order size a.block_size) a.block_size
  pub taken : (x : ℕ) → start ≤ x → x < end → cover_lists a.block_size x a'.free_lists ≡ 0

abbrev Ensures : Allocator → ℕ → Allocator × Option (ℕ × ℕ) → Type 0
Ensures a size (a', none) = Unit {0}
Ensures a size (a', some (start, end)) = IsAllocated a a' size start end

sub_slice-le :
    (source_size start end : ℕ) {u : Unit {0}}
    → sub_slice source_size start end ≡ done u
    → end ≤ source_size
unfolding sub_slice
sub_slice-le source_size start end h = ground arith

hit_within : (w start size x : ℕ) → size ≤ w → start ≤ x → x < start + size → hit w start x ≡ 1
hit_within w start size x h p q = ground arith

allocated :
    (a : Allocator) (size picked : ℕ) (r : Allocator × ℕ)
    → IsValid a
    → order size a.block_size ≤ picked
    → Steps a (order size a.block_size) picked r
    → (out : Allocator × Option (ℕ × ℕ)) → to_buffer size r ≡ done out
    → Ensures a size out
allocated a size picked r v up s out h =
    let requested = order size a.block_size in
    let state = after a requested picked r v up s in
    let q : to_buffer size (state, s.offset) ≡ done out =
      subst (λ t. to_buffer size t ≡ done out) s.result h in
    let (u, sub, q') = >>=-eq_done (sub_slice state.source_size s.offset (s.offset + size)) _ q in
    let holds = (order-IsLeast size a.block_size (block_size_pos a v)).0 in
    subst (Ensures a size) (done-injective (state, some (s.offset, s.offset + size)) out q')
      (record {
        valid = after-IsValid a requested picked r v up s;
        same_source = (refl, refl);
        extent = refl;
        inside = sub_slice-le state.source_size s.offset (s.offset + size) sub;
        recorded = refl;
        new_start = not_recorded a requested picked r v up s;
        holds = holds;
        taken = λ x p q.
            after_covers a requested picked r v up s x (hit_within _ s.offset size x holds p q);
      })

finish :
    (a : Allocator) (size : ℕ) (o : Option ℕ) (out : Allocator × Option (ℕ × ℕ))
    → IsValid a
    → ((k : ℕ) → o ≡ some k → order size a.block_size ≤ k)
    → allocate_picked a size (order size a.block_size) o ≡ done out
    → Ensures a size out
finish a size none out v up h = subst (Ensures a size) (done-injective (a, none) out h) tt
finish a size (some k) out v up h =
    let (r, at, q) = >>=-eq_done (allocate_at a (order size a.block_size) k) (to_buffer size) h in
    allocated a size k r v (up k refl) (allocate_at-Steps a (order size a.block_size) k r at) out q

-- A buffer that a valid allocator hands out: the new state is valid, so that no byte lies in two
-- regions; the buffer has the size that was asked for and lies within the source; a region that
-- holds it is recorded at its start, where none was; and no byte of the buffer is free.
pub try_allocate-IsAllocated :
    (a a' : Allocator) (size start end : ℕ)
    → IsValid a
    → try_allocate_buffer a size ≡ done (a', some (start, end))
    → IsAllocated a a' size start end
unfolding try_allocate_buffer
try_allocate-IsAllocated a a' size start end v h =
    let requested = order size a.block_size in
    let (fits, q) = assert-eq_done _ _ h in
    let (in_range, q') = assert-eq_done _ _ q in
    finish a size (pick requested (drop_lists requested a.free_lists)) (a', some (start, end)) v
      (pick-le requested (drop_lists requested a.free_lists)) q'
