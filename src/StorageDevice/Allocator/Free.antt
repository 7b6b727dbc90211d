-- ===== src/StorageDevice/Allocator/Free.antt =====
-- The freeing of regions: src/lib/storage/storage_device/src/buffer_allocator.rs.
use fuchsia_storage.Shared.{
  ℕ, ◌+◌, ◌-◌, ◌*◌, ◌≤◌, ◌<◌, ◌≡◌, subst, refl, ap, ◌∙◌, sym, true, Option, none, some, ltb, leb,
  length, if◌then◌else◌, arith, le→leb,
}
use fuchsia_storage.StorageDevice.Rounding.{round_down}
use fuchsia_storage.StorageDevice.Power.{pow2, pow2_pos}
use fuchsia_storage.StorageDevice.Allocator.{
  AllocationMap, done, Allocator, FreeLists, size_for_order, order, merge, give_back, map_remove,
  map_insert, free_buffer, try_allocate_buffer,
}
use fuchsia_storage.StorageDevice.Allocator.Orders.{order-size_for_order}
use fuchsia_storage.StorageDevice.Allocator.Cover.{hit, cover_lists, cover_map, cover-map_remove}
use fuchsia_storage.StorageDevice.Allocator.State.{IsValid, IsRegion, Recorded, Recorded-map_remove}
use fuchsia_storage.StorageDevice.Allocator.Steps.{hit_start}
use fuchsia_storage.StorageDevice.Allocator.Allocate.{try_allocate-IsAllocated, block_size_pos}
use fuchsia_storage.StorageDevice.Allocator.Merge.{Merges, IsMerged, merge-Merges}
use fuchsia_storage.StorageDevice.Allocator.Given.{IsGiven, give_back-IsGiven, IsFreed}

-- The chain of `free_buffer`, once each step's result is known.
free_buffer-steps :
    (a : Allocator) (start end len : ℕ) (m' : AllocationMap) (lists : FreeLists) (offset k : ℕ)
    (lists' : FreeLists)
    → map_remove start a.allocation_map ≡ some (len, m')
    → leb (end - start) len ≡ true
    → merge a.block_size
        (length a.free_lists - 1 - order len a.block_size)
        start
        (order len a.block_size)
        a.free_lists
      ≡ done (lists, offset, k)
    → give_back (lists, offset, k) ≡ done lists'
    → free_buffer a start end ≡ done (record a { free_lists = lists'; allocation_map = m' })
unfolding free_buffer
free_buffer-steps a start end len m' lists offset k lists' p q r s = ground arith

-- The merge of the region, with the order that `free_buffer` finds for its length.
merged_region :
    (a : Allocator) (start len : ℕ)
    → IsValid a
    → IsRegion a.block_size (length a.free_lists) start len
    → Merges a.block_size start (order len a.block_size) a.free_lists (
        merge a.block_size
          (length a.free_lists - 1 - order len a.block_size)
          start
          (order len a.block_size)
          a.free_lists)
merged_region a start len v (k, below, is_len, (q, at)) =
    let b = a.block_size in
    let found_order : k ≡ order len b =
      sym (ap (λ w. order w b) is_len ∙ order-size_for_order b k (block_size_pos a v)) in
    let from : q * size_for_order k b ≡ start = sym (at ∙ ap (λ (w : ℕ). q * w) is_len) in
    subst
      (λ (o : ℕ).
        Merges b o (order len b) a.free_lists
          (merge b (length a.free_lists - 1 - order len b) o (order len b) a.free_lists))
      from
      (subst
        (λ (i : ℕ).
          Merges b (q * size_for_order k b) i a.free_lists
            (merge b (length a.free_lists - 1 - i) (q * size_for_order k b) i a.free_lists))
        found_order
        (merge-Merges b v.log_block (length a.free_lists - 1 - k) k q a.free_lists v.block
          (omega arith) v.aligned))

region_order :
    (a : Allocator) (start len : ℕ)
    → IsValid a
    → IsRegion a.block_size (length a.free_lists) start len
    → size_for_order (order len a.block_size) a.block_size ≡ len
region_order a start len v (k, below, is_len, at) =
    let b = a.block_size in
    ap (λ i. size_for_order i b)
      (ap (λ w. order w b) is_len ∙ order-size_for_order b k (block_size_pos a v))
    ∙ sym is_len

module _ (a : Allocator) (start len : ℕ) (m' : AllocationMap) (v : IsValid a)
    (recorded : map_remove start a.allocation_map ≡ some (len, m')) (lists : FreeLists)
    (offset top : ℕ)
    (merged : IsMerged a.block_size start (order len a.block_size) a.free_lists lists offset top)
    (is_len : size_for_order (order len a.block_size) a.block_size ≡ len) where
  abbrev b : ℕ
  b = a.block_size

  top_pos : 0 < size_for_order top b
  top_pos = rw v.block (grind (arith, pow2_pos v.log_block, pow2_pos top))

  merged_covers :
      (x : ℕ)
      → cover_lists b x lists + hit (size_for_order top b) offset x
        ≡ cover_lists b x a.free_lists + hit len start x
  merged_covers x = merged.covers x ∙ ap (λ w. cover_lists b x a.free_lists + hit w start x) is_len

  taken_out : (x : ℕ) → cover_map x a.allocation_map ≡ hit len start x + cover_map x m'
  taken_out x = cover-map_remove start x a.allocation_map len m' recorded

  bare : cover_lists b offset lists ≡ 0
  bare = ground (
    arith,
    v.covers offset,
    taken_out offset,
    merged_covers offset,
    hit_start (b * pow2 top) offset top_pos,
  )

  given :
      (lists' : FreeLists) × (give_back (lists, offset, top) ≡ done lists')
      × IsGiven b offset top lists lists'
  given =
      give_back-IsGiven b offset top lists top_pos
        (omega (arith, merged.in_range, merged.same_length)) bare merged.multiple merged.aligned

  module _ (lists' : FreeLists) (g : IsGiven b offset top lists lists') where
    total : (x : ℕ) → cover_lists b x lists' ≡ cover_lists b x a.free_lists + hit len start x
    total x = g.covers x ∙ merged_covers x

    freed : IsFreed a (record a { free_lists = lists'; allocation_map = m' }) start len
    freed = record {
      valid = record {
        log_block = v.log_block;
        block = v.block;
        covers = λ x. omega (arith, v.covers x, taken_out x, total x);
        aligned = g.aligned;
        recorded =
            subst (λ n. Recorded b n m') (sym (g.same_length ∙ merged.same_length))
              (Recorded-map_remove b (length a.free_lists) start a.allocation_map len m' recorded
                v.recorded).1;
      };
      same_source = (refl, refl);
      unrecorded = recorded;
      released = total;
    }

-- From a valid allocator, a region that is recorded is freed without a panic, by any range that
-- starts where it does and is no longer than it. The state is valid again, the region is no longer
-- recorded, and its bytes are free in addition to those that were.
pub free_buffer-IsFreed :
    (a : Allocator) (start end len : ℕ) (m' : AllocationMap)
    → IsValid a
    → map_remove start a.allocation_map ≡ some (len, m')
    → end - start ≤ len
    → (a' : Allocator) × (free_buffer a start end ≡ done a') × IsFreed a a' start len
free_buffer-IsFreed a start end len m' v recorded fits =
    let region =
      (Recorded-map_remove a.block_size (length a.free_lists) start a.allocation_map len m' recorded
        v.recorded).0 in
    let is_len = region_order a start len v region in
    let (lists, offset, top, merges, merged) = merged_region a start len v region in
    let (lists', gives, g) = given a start len m' v recorded lists offset top merged is_len in
    (
      record a { free_lists = lists'; allocation_map = m' },
      free_buffer-steps a start end len m' lists offset top lists' recorded (le→leb _ _ fits) merges
          gives,
      freed a start len m' v recorded lists offset top merged is_len lists' g,
    )

map_remove-insert :
    (k v : ℕ) (m : AllocationMap)
    → map_remove k m ≡ none
    → map_remove k (map_insert k v m) ≡ some (v, m)
unfolding map_insert map_remove
map_remove-insert k v m h = ground arith

same_rest :
    (w w' : ℕ) (m m' : AllocationMap)
    → Path (Option (ℕ × AllocationMap)) (some (w, m)) (some (w', m'))
    → m ≡ m'
same_rest w w' m m' h = cc

-- How many regions cover a byte of a valid allocator.
abbrev expected : ℕ → ℕ → ℕ → ℕ
expected x source_size w = if ltb x (round_down source_size w) then 1 else 0

-- The same regions recorded in the same source leave the same bytes free.
restored :
    (a a'' : Allocator)
    → IsValid a
    → IsValid a''
    → a''.source_size ≡ a.source_size
    → a''.block_size ≡ a.block_size
    → a''.allocation_map ≡ a.allocation_map
    → (a''.allocation_map ≡ a.allocation_map)
      × ((x : ℕ)
          → cover_lists a''.block_size x a''.free_lists ≡ cover_lists a.block_size x a.free_lists)
restored a a'' v v'' source block map = (
  map,
  λ x.
      let before = v.covers x in
      let after = rw (source, map) at (v''.covers x) in
      let whole = ap (expected x a.source_size) block in omega (arith, before, after, whole),
)

-- A buffer that a valid allocator has handed out is freed without a panic when it is dropped, by
-- the range that it covers. What was allocated before is recorded as before, the state is valid
-- again, and every byte is free exactly if it was free before the allocation.
pub free-try_allocate :
    (a a' : Allocator) (size start end : ℕ)
    → IsValid a
    → try_allocate_buffer a size ≡ done (a', some (start, end))
    → (a'' : Allocator) × (free_buffer a' start end ≡ done a'')
      × IsValid a''
      × (a''.allocation_map ≡ a.allocation_map)
      × ((x : ℕ)
          → cover_lists a''.block_size x a''.free_lists ≡ cover_lists a.block_size x a.free_lists)
free-try_allocate a a' size start end v h =
    let got = try_allocate-IsAllocated a a' size start end v h in
    let len = size_for_order (order size a.block_size) a.block_size in
    let recorded : map_remove start a'.allocation_map ≡ some (len, a.allocation_map) =
      ap (map_remove start) got.recorded
      ∙ map_remove-insert start len a.allocation_map got.new_start in
    let (a'', frees, f) =
      free_buffer-IsFreed a' start end len a.allocation_map got.valid recorded
        (omega (arith, got.extent, got.holds)) in
    let (map_back, cover_back) =
      restored a a'' v f.valid (f.same_source.0 ∙ got.same_source.0)
        (f.same_source.1 ∙ got.same_source.1) (same_rest _ _ _ _ (sym f.unrecorded ∙ recorded)) in
    (a'', frees, f.valid, map_back, cover_back)
