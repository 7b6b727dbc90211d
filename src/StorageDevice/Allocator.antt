-- ===== src/StorageDevice/Allocator.antt =====
-- The buddy allocator: src/lib/storage/storage_device/src/buffer_allocator.rs. A method is one
-- critical section of the mutex; a failed `assert!`, `expect` or index is `panic`.
pub mod Orders
pub mod Cover
pub mod Aligned
pub mod State
pub mod Steps
pub mod Allocate
pub mod Merge
pub mod Given
pub mod Free
use Prim.Native.Nat.{bit_xor}
use fuchsia_storage.Shared.{
  ℕ, zero, suc, ◌+◌, ◌-◌, ◌*◌, ◌/◌, Bool, true, false, not, ◌&&◌, ◌||◌, List, [], ◌∷◌, ◌++◌, Option,
  none, some, ◌==◌, ltb, leb, min, length, get_elem?, set, replicate, if◌then◌else◌,
}
use fuchsia_storage.StorageDevice.Rounding.{round_down, round_up}
use fuchsia_storage.StorageDevice.Power.{pow2, next_power_of_two, is_power_of_two, trailing_zeros}

pub data Outcome {ℓ} (A : Type ℓ) : Type ℓ where
  done : A → Outcome A
  panic : Outcome A

infixl 5 ◌>>=◌
abbrev pub ◌>>=◌ {ℓ κ} : {A : Type ℓ} {B : Type κ} → Outcome A → (A → Outcome B) → Outcome B
done a >>= f = f a
panic >>= f = panic

-- `assert!(b)` before `m`.
unfoldable pub assert {ℓ} : {A : Type ℓ} → Bool → Outcome A → Outcome A
assert b m = if b then m else panic

abbrev pub unwrap {ℓ} : {A : Type ℓ} → Option A → Outcome A
unwrap none = panic
unwrap (some a) = done a

unfoldable pub order : ℕ → ℕ → ℕ
unfolding round_up next_power_of_two trailing_zeros
order size block_size =
    if leb size block_size
    then 0
    else trailing_zeros (next_power_of_two (round_up size block_size / block_size))

-- After the assertion `size >= block_size`.
unfoldable pub order_fit : ℕ → ℕ → ℕ
unfolding round_up is_power_of_two trailing_zeros
order_fit size block_size =
    let nblocks = round_up size block_size / block_size in
    if is_power_of_two nblocks
    then trailing_zeros nblocks
    else trailing_zeros (next_power_of_two nblocks) - 1

abbrev pub size_for_order : ℕ → ℕ → ℕ
size_for_order order block_size = block_size * pow2 order

-- `Vec<FreeList>`
abbrev pub FreeLists : Type 0
FreeLists = List (List ℕ)

-- `free_lists[order].push(offset)`
unfoldable pub push : FreeLists → ℕ → ℕ → Outcome FreeLists
push lists order offset =
    unwrap (get_elem? lists order) >>= λ l. done (set lists order (l ++ offset ∷ []))

-- `while offset < size { … }`, whose fuel is a bound on the rounds: each takes a block off the
-- rest.
unfoldable pub fill : ℕ → ℕ → ℕ → ℕ → FreeLists → Outcome FreeLists
unfolding push order_fit
fill zero block_size size offset lists = if ltb offset size then panic else done lists
fill (suc fuel) block_size size offset lists =
    let order = order_fit (size - offset) block_size in
    let rest = push lists order offset >>= λ lists'.
    fill fuel block_size size (offset + size_for_order order block_size) lists' in
    if ltb offset size then assert (leb block_size (size - offset)) rest else done lists

unfoldable pub initial_free_lists : ℕ → ℕ → Outcome FreeLists
unfolding fill round_down assert
initial_free_lists size block_size =
    let size = round_down size block_size in
    assert (leb block_size size) (
      assert (is_power_of_two block_size)
        (fill size block_size size 0 (replicate (order_fit size block_size + 1) [])))

-- A `BTreeMap<usize, usize>`, by its pairs; a key stands in at most one.
abbrev pub AllocationMap : Type 0
AllocationMap = List (ℕ × ℕ)

-- `Option` of the value and the map without it.
unfoldable pub map_remove : ℕ → AllocationMap → Option (ℕ × AllocationMap)
map_remove k [] = none
map_remove k ((j, v) ∷ m) =
    if j == k
    then some (v, m)
    else elim (map_remove k m) [ none ↦ none | some (w, m') ↦ some (w, (j, v) ∷ m') ]

unfoldable pub map_insert : ℕ → ℕ → AllocationMap → AllocationMap
unfolding map_remove
map_insert k v m = elim (map_remove k m) [ none ↦ (k, v) ∷ m | some (w, m') ↦ (k, v) ∷ m' ]

-- `BufferAllocator` with its `Inner`; `source_size` is `source.size()`.
pub record Allocator : Type 0 where
  pub block_size : ℕ
  pub source_size : ℕ
  pub free_lists : FreeLists
  pub allocation_map : AllocationMap

-- `BufferAllocator::new`
unfoldable pub new : ℕ → ℕ → Outcome Allocator
unfolding initial_free_lists
new block_size source_size = initial_free_lists source_size block_size >>= λ lists. done (record {
  block_size = block_size;
  source_size = source_size;
  free_lists = lists;
  allocation_map = [];
})

-- The loop that picks the smallest order with a free entry, from the lists at `idx` and after.
unfoldable pub pick : ℕ → FreeLists → Option ℕ
pick idx [] = none
pick idx ([] ∷ lists) = pick (idx + 1) lists
pick idx ((o ∷ l) ∷ lists) = some idx

abbrev pub drop_lists : ℕ → FreeLists → FreeLists
drop_lists zero lists = lists
drop_lists (suc n) [] = []
drop_lists (suc n) (l ∷ lists) = drop_lists n lists

-- `Vec::pop`
unfoldable pub pop : List ℕ → Option (ℕ × List ℕ)
pop [] = none
pop (o ∷ l) = elim (pop l) [ none ↦ some (o, []) | some (last, rest) ↦ some (last, o ∷ rest) ]

abbrev pub is_empty : List ℕ → Bool
is_empty [] = true
is_empty (o ∷ l) = false

-- `while order > requested_order { … }`, with `n` for `order - requested_order`.
unfoldable pub split : ℕ → ℕ → ℕ → ℕ → FreeLists → Outcome FreeLists
unfolding push
split block_size offset requested zero lists = done lists
split block_size offset requested (suc n) lists = unwrap (get_elem? lists (requested + n)) >>= λ l.
    assert (is_empty l) (
      push lists (requested + n) (offset + size_for_order (requested + n) block_size) >>= λ lists'.
      split block_size offset requested n lists')

-- The region at the end of the list of the order that was picked is split and recorded.
unfoldable pub allocate_at : Allocator → ℕ → ℕ → Outcome (Allocator × ℕ)
unfolding pop split map_insert
allocate_at a requested order = unwrap (get_elem? a.free_lists order) >>= λ l.
    unwrap (pop l) >>= λ popped.
    split a.block_size popped.0 requested (order - requested) (set a.free_lists order popped.1)
    >>= λ lists. done (
      record a {
        free_lists = lists;
        allocation_map =
            map_insert popped.0 (size_for_order requested a.block_size) a.allocation_map;
      },
      popped.0,
    )

-- The checks of `sub_slice` on the range `offset..offset + size`.
unfoldable pub sub_slice : ℕ → ℕ → ℕ → Outcome (Unit {0})
sub_slice source_size start end =
    if leb source_size start || ltb source_size end then panic else done tt

-- The buffer is the range that it covers: its start and its end.
abbrev pub to_buffer : ℕ → Allocator × ℕ → Outcome (Allocator × Option (ℕ × ℕ))
to_buffer size (a, offset) =
    sub_slice a.source_size offset (offset + size) >>= λ _. done (a, some (offset, offset + size))

abbrev pub allocate_picked : Allocator → ℕ → ℕ → Option ℕ → Outcome (Allocator × Option (ℕ × ℕ))
allocate_picked a size requested none = done (a, none)
allocate_picked a size requested (some order) = allocate_at a requested order >>= to_buffer size

unfoldable pub try_allocate_buffer : Allocator → ℕ → Outcome (Allocator × Option (ℕ × ℕ))
unfolding order pick allocate_at sub_slice assert
try_allocate_buffer a size =
    let requested = order size a.block_size in
    assert (leb size a.source_size) (
      assert (ltb requested (length a.free_lists))
        (allocate_picked a size requested (pick requested (drop_lists requested a.free_lists))))

-- `binary_search` on a sorted list: where the value stands, or where it would.
pub data Search : Type 0 where
  found missing : ℕ → Search

unfoldable pub binary_search : ℕ → List ℕ → Search
binary_search v [] = missing 0
binary_search v (x ∷ l) =
    if x == v
    then found 0
    else if ltb v x
    then missing 0
    else elim (binary_search v l) [ found i ↦ found (suc i) | missing i ↦ missing (suc i) ]

-- `Vec::remove` and `Vec::insert`
unfoldable pub remove_at : ℕ → List ℕ → List ℕ
remove_at i [] = []
remove_at zero (x ∷ l) = l
remove_at (suc i) (x ∷ l) = x ∷ remove_at i l

unfoldable pub insert_at : ℕ → ℕ → List ℕ → List ℕ
insert_at zero v l = v ∷ l
insert_at (suc i) v [] = v ∷ []
insert_at (suc i) v (x ∷ l) = x ∷ insert_at i v l

unfoldable pub find_buddy : ℕ → ℕ → ℕ → ℕ
find_buddy block_size offset order = bit_xor offset (size_for_order order block_size)

-- `while order < free_lists.len() - 1 { … }`, with `n` for the rounds that are left. The result is
-- the lists, the offset and the order of the merged region.
unfoldable pub merge : ℕ → ℕ → ℕ → ℕ → FreeLists → Outcome (FreeLists × ℕ × ℕ)
unfolding binary_search remove_at find_buddy
merge block_size zero offset order lists = done (lists, offset, order)
merge block_size (suc n) offset order lists = unwrap (get_elem? lists order) >>= λ l.
    elim (binary_search (find_buddy block_size offset order) l) [
      | missing i ↦ done (lists, offset, order)
      | found i ↦
          merge block_size n (min offset (find_buddy block_size offset order)) (order + 1)
            (set lists order (remove_at i l))
    ]

-- The last step: the region goes into its list, where it must not be.
unfoldable pub give_back : FreeLists × ℕ × ℕ → Outcome FreeLists
unfolding binary_search insert_at
give_back (lists, offset, order) = unwrap (get_elem? lists order) >>= λ l.
    elim (binary_search offset l) [
      | found i ↦ panic
      | missing i ↦ done (set lists order (insert_at i offset l))
    ]

unfoldable pub free_buffer : Allocator → ℕ → ℕ → Outcome Allocator
unfolding assert
free_buffer a start end = unwrap (map_remove start a.allocation_map) >>= λ removed.
    assert (leb (end - start) removed.0) (
      merge a.block_size (length a.free_lists - 1 - order removed.0 a.block_size) start
        (order removed.0 a.block_size) a.free_lists
      >>= λ merged. give_back merged >>= λ lists.
          done (record a { free_lists = lists; allocation_map = removed.1 }))

abbrev expect_buffer : Allocator × Option (ℕ × ℕ) → Outcome (Allocator × (ℕ × ℕ))
expect_buffer (a, none) = panic
expect_buffer (a, some buffer) = done (a, buffer)

unfoldable pub allocate_buffer : Allocator → ℕ → Outcome (Allocator × (ℕ × ℕ))
unfolding try_allocate_buffer
allocate_buffer a size = try_allocate_buffer a size >>= expect_buffer
