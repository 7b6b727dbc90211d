-- ===== src/StorageDevice/Xor.antt =====
-- `^` with a power of two, on a multiple of that power.
use Prim.Native.Nat.{bit_xor, bit_xor-bitwise, digits, differ}
use fuchsia_storage.Shared.{
  ℕ, zero, suc, ◌+◌, ◌-◌, ◌*◌, ◌/◌, ◌%◌, ◌≤◌, ◌<◌, ◌≡◌, refl, ◌∙◌, arith, ◌==◌, if◌then◌else◌,
}
use fuchsia_storage.StorageDevice.Power.{pow2}

abbrev xor_digits : ℕ → ℕ → ℕ → ℕ
xor_digits n a b = digits (λ b. b) differ n a b

xor_digits_fuel : (n m a b : ℕ) → a ≤ n → a ≤ m → xor_digits n a b ≡ xor_digits m a b
xor_digits_fuel zero zero a b p q = refl
xor_digits_fuel zero (suc m) zero b p q = refl
xor_digits_fuel zero (suc m) (suc a) b p q = absurd (omega arith)
xor_digits_fuel (suc n) zero zero b p q = refl
xor_digits_fuel (suc n) zero (suc a) b p q = absurd (omega arith)
xor_digits_fuel (suc n) (suc m) zero b p q = refl
xor_digits_fuel (suc n) (suc m) (suc a) b p q =
    omega (arith, xor_digits_fuel n m (suc a / 2) (b / 2) (omega arith) (omega arith))

zero-bit_xor : (b : ℕ) → bit_xor 0 b ≡ b
zero-bit_xor b = bit_xor-bitwise 0 b

differ_zero : (b : ℕ) → differ 0 b ≡ b
differ_zero b = refl

bit_xor_step : (a b : ℕ) → bit_xor a b ≡ bit_xor (a / 2) (b / 2) * 2 + differ (a % 2) (b % 2)
bit_xor_step zero b = omega (arith, zero-bit_xor b, zero-bit_xor (b / 2))
bit_xor_step (suc a) b = omega (
  arith,
  bit_xor-bitwise (suc a) b,
  bit_xor-bitwise (suc a / 2) (b / 2),
  xor_digits_fuel a (suc a / 2) (suc a / 2) (b / 2) (omega arith) (omega arith),
)

differ-zero : (a : ℕ) → differ a 0 ≡ a
differ-zero zero = refl
differ-zero (suc a) = refl

bit_xor-zero_fuel : (n a : ℕ) → a ≤ n → bit_xor a 0 ≡ a
bit_xor-zero_fuel n zero h = zero-bit_xor 0
bit_xor-zero_fuel zero (suc a) h = absurd (omega arith)
bit_xor-zero_fuel (suc n) (suc a) h = omega (
  arith,
  bit_xor_step (suc a) 0,
  differ-zero (suc a % 2),
  bit_xor-zero_fuel n (suc a / 2) (omega arith),
)

-- The neighbour of `q`: the other number with the same half.
abbrev pub neighbour : ℕ → ℕ
neighbour q = if q % 2 == 0 then q + 1 else q - 1

differ-one : (r : ℕ) → r < 2 → differ r 1 ≡ 1 - r
differ-one zero h = refl
differ-one (suc zero) h = refl
differ-one (suc (suc r)) h = absurd (omega arith)

bit_xor-one : (q : ℕ) → bit_xor q 1 ≡ neighbour q
bit_xor-one q = ground (
  arith,
  bit_xor_step q 1,
  bit_xor-zero_fuel (q / 2) (q / 2) (omega arith),
  differ-one (q % 2) (omega arith),
)

pub bit_xor-pow2 : (q k : ℕ) → bit_xor (q * pow2 k) (pow2 k) ≡ neighbour q * pow2 k
bit_xor-pow2 q zero =
    let one : q * 1 ≡ q = omega arith in
    let one' : neighbour q * 1 ≡ neighbour q = omega arith in rw (one, one') (bit_xor-one q)
bit_xor-pow2 q (suc k) =
    let half : q * (2 * pow2 k) / 2 ≡ q * pow2 k = omega arith in
    let half' : 2 * pow2 k / 2 ≡ pow2 k = omega arith in
    let even : q * (2 * pow2 k) % 2 ≡ 0 = omega arith in
    let even' : 2 * pow2 k % 2 ≡ 0 = omega arith in
    bit_xor_step (q * pow2 (suc k)) (pow2 (suc k))
    ∙ rw (half, half', even, even') (rw (bit_xor-pow2 q k) (omega arith))
