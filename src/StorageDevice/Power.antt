-- ===== src/StorageDevice/Power.antt =====
-- Powers of two: the functions of the standard library that
-- src/lib/storage/storage_device/src/buffer_allocator.rs uses, `next_power_of_two`,
-- `is_power_of_two` and `trailing_zeros`.
use native.Mathlib.Nat.{zero-add, suc-add}
use fuchsia_storage.Shared.{
  ℕ, zero, suc, ◌+◌, ◌*◌, ◌/◌, ◌%◌, ◌≤◌, ◌<◌, ◌≡◌, refl, ap, Bool, not, ◌&&◌, arith, ◌==◌, leb,
  if◌then◌else◌, Bool-cases, inl, inr,
}

-- `1 << k`
abbrev pub pow2 : ℕ → ℕ
pow2 zero = 1
pow2 (suc k) = 2 * pow2 k

-- Doubling from `p` until `n` is reached; each step takes one of the fuel.
double_until : ℕ → ℕ → ℕ → ℕ
double_until zero n p = p
double_until (suc f) n p = let rest = double_until f n (2 * p) in if leb n p then p else rest

unfoldable pub next_power_of_two : ℕ → ℕ
unfolding double_until
next_power_of_two n = double_until n n 1

unfoldable pub is_power_of_two : ℕ → Bool
unfolding next_power_of_two
is_power_of_two n = not (n == 0) && next_power_of_two n == n

-- A number of at most `f` bits, other than zero.
zeros : ℕ → ℕ → ℕ
zeros zero n = 0
zeros (suc f) n = let rest = suc (zeros f (n / 2)) in if n % 2 == 0 then rest else 0

unfoldable pub trailing_zeros : ℕ → ℕ
unfolding zeros
trailing_zeros n = if n == 0 then 64 else zeros n n

pub pow2_pos : (k : ℕ) → 0 < pow2 k
pow2_pos zero = omega arith
pow2_pos (suc k) = omega (arith, pow2_pos k)

pub lt-pow2 : (k : ℕ) → k < pow2 k
lt-pow2 zero = omega arith
lt-pow2 (suc k) = omega (arith, lt-pow2 k)

pub pow2_mono : (j k : ℕ) → j ≤ k → pow2 j ≤ pow2 k
pow2_mono zero k h = pow2_pos k
pow2_mono (suc j) zero h = absurd (omega arith)
pow2_mono (suc j) (suc k) h = omega (arith, pow2_mono j k (omega arith))

pub pow2_add : (j k : ℕ) → pow2 (j + k) ≡ pow2 j * pow2 k
pow2_add zero k = rw zero-add (omega arith)
pow2_add (suc j) k = rw suc-add (omega (arith, pow2_add j k))

-- The least power that reaches `n`.
pub record IsLeast (n p k : ℕ) : Type 0 where
  pub power : p ≡ pow2 k
  pub reaches : n ≤ pow2 k
  pub least : (j : ℕ) → j < k → pow2 j < n

double_until-IsLeast :
    (f n i : ℕ)
    → n ≤ f + pow2 i
    → ((j : ℕ) → j < i → pow2 j < n)
    → (k : ℕ) × IsLeast n (double_until f n (pow2 i)) k
unfolding double_until
double_until-IsLeast zero n i h below =
    (i, record { power = refl; reaches = omega arith; least = below })
double_until-IsLeast (suc f) n i h below = elim (Bool-cases (leb n (pow2 i))) [
  | inl here ↦ (i, rw here (record { power = refl; reaches = ground arith; least = below }))
  | inr more ↦ rw more (
      double_until-IsLeast f n (suc i) (ground (arith, pow2_pos i))
        (λ j h'. ground (arith, pow2_mono j i)))
]

zeros-pow2 : (f k : ℕ) → k < f → zeros f (pow2 k) ≡ k
unfolding zeros
zeros-pow2 zero k h = elim h [ ]
zeros-pow2 (suc f) zero h = refl
zeros-pow2 (suc f) (suc k) h =
    let half : 2 * pow2 k / 2 ≡ pow2 k = omega arith in
    let even : 2 * pow2 k % 2 ≡ 0 = omega arith in
    rw (even, half) (ap suc (zeros-pow2 f k (omega arith)))

pub trailing_zeros-pow2 : (k : ℕ) → trailing_zeros (pow2 k) ≡ k
unfolding trailing_zeros
trailing_zeros-pow2 k = ground (arith, zeros-pow2 (pow2 k) k (lt-pow2 k), pow2_pos k)

pub next_power_of_two-IsLeast : (n : ℕ) → (k : ℕ) × IsLeast n (next_power_of_two n) k
unfolding next_power_of_two
next_power_of_two-IsLeast n = double_until-IsLeast n n 0 (omega arith) (λ j h. absurd (omega arith))
