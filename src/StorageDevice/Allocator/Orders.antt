-- ===== src/StorageDevice/Allocator/Orders.antt =====
-- Orders and sizes: src/lib/storage/storage_device/src/buffer_allocator.rs.
use native.Mathlib.Nat.{mul-div_right}
use fuchsia_storage.Shared.{
  ap, ◌∙◌, ℕ, suc, ◌+◌, ◌-◌, ◌*◌, ◌/◌, ◌%◌, ◌≤◌, ◌<◌, ◌≡◌, true, false, leb, arith, Bool-cases, inl,
  inr,
}
use fuchsia_storage.StorageDevice.Rounding.{round_up, round_down}
use fuchsia_storage.StorageDevice.Power.{
  pow2_mono, pow2_pos, pow2, next_power_of_two, trailing_zeros, trailing_zeros-pow2,
  next_power_of_two-IsLeast,
}
use fuchsia_storage.StorageDevice.Allocator.{order, size_for_order}

-- The number of blocks that a size takes.
blocks : ℕ → ℕ → ℕ
blocks size b = round_up size b / b

blocks_bounds : (size b : ℕ) → 0 < b → (size ≤ b * blocks size b) × (b * blocks size b < size + b)
unfolding blocks round_up round_down
blocks_bounds size b h =
    let v : ℕ = size + b - 1 in
    let whole : (v - v % b) ≡ b * (v / b) = omega arith in
    let q : (v - v % b) / b ≡ v / b = rw whole (mul-div_right (v / b) h) in
    rw q (omega arith, omega arith)

mul_le : (b m n : ℕ) → m ≤ n → b * m ≤ b * n
mul_le b m n h = grind arith

reach : (size b n p : ℕ) → size ≤ b * n → n ≤ p → size ≤ b * p
reach size b n p h k = omega (arith, mul_le b n p k)

short : (size b n p : ℕ) → b * n < size + b → p < n → b * p < size
short size b n p h k = omega (arith, mul_le b (suc p) n k)

large-order :
    (size b : ℕ)
    → leb size b ≡ false
    → order size b ≡ trailing_zeros (next_power_of_two (blocks size b))
unfolding order blocks
large-order size b h = rw h

small-order : (size b : ℕ) → leb size b ≡ true → order size b ≡ 0
unfolding order
small-order size b h = rw h

-- For a block size other than zero, `order` is the least order whose regions hold `size` bytes.
pub order-IsLeast :
    (size b : ℕ)
    → 0 < b
    → (size ≤ size_for_order (order size b) b)
      × ((j : ℕ) → j < order size b → size_for_order j b < size)
order-IsLeast size b h = elim (Bool-cases (leb size b)) [
  | inl small ↦ rw (small-order size b small) (ground arith, λ j k. absurd (omega arith))
  | inr large ↦
      let (k, least) = next_power_of_two-IsLeast (blocks size b) in
      let (enough, tight) = blocks_bounds size b h in
      let eq : order size b ≡ k =
        large-order size b large ∙ ap trailing_zeros least.power ∙ trailing_zeros-pow2 k in
      rw eq (
        reach size b (blocks size b) (pow2 k) enough least.reaches,
        λ j below. short size b (blocks size b) (pow2 j) tight (least.least j below),
      )
]

-- The least order of a size that is that of an order is the order.
pub order-size_for_order : (b k : ℕ) → 0 < b → order (size_for_order k b) b ≡ k
order-size_for_order b k h =
    let (enough, least) = order-IsLeast (size_for_order k b) b h in
    let o = order (size_for_order k b) b in
    ground (
      arith,
      least k,
      pow2_mono (suc o) k,
      mul_le b (2 * pow2 o) (pow2 k),
      mul_le b 1 (pow2 o) (pow2_pos o),
    )
