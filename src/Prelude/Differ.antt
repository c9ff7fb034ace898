-- ===== src/Prelude/Differ.antt =====
-- `x ^ y` and `acc | d`: a difference that is gathered is not lost.
use Prim.Native.Nat.{
  ℕ, zero, suc, ◌+◌, ◌*◌, ◌/◌, ◌%◌, ◌≤◌, differ, bit_or, bit_xor, bit_xor-bitwise,
}
use mathlib.Core.Path.{◌≡◌, refl}
use native.Mathlib.Omega.{arith}
use qqflow_server.Prelude.Bits.{digits_rest, bit_or_halves, zero-bit_or}

pub zero-bit_xor : (b : ℕ) → bit_xor 0 b ≡ b
zero-bit_xor b = bit_xor-bitwise 0 b

bit_xor_halves : (a b : ℕ) → bit_xor a b ≡ bit_xor (a / 2) (b / 2) * 2 + differ (a % 2) (b % 2)
bit_xor_halves zero b = omega (arith, zero-bit_xor b, zero-bit_xor (b / 2))
bit_xor_halves (suc a) b = omega (
  arith,
  bit_xor-bitwise (suc a) b,
  bit_xor-bitwise (suc a / 2) (b / 2),
  digits_rest (λ t. t) differ a (b / 2),
)

bit_or-large : (n a b : ℕ) → a ≤ n → a + b ≤ 2 * bit_or a b
bit_or-large n zero b h = omega (arith, zero-bit_or b)
bit_or-large zero (suc a) b h = absurd (omega arith)
bit_or-large (suc n) (suc a) b h =
    omega (arith, bit_or_halves (suc a) b, bit_or-large n (suc a / 2) (b / 2) (omega arith))

-- The numbers are no further apart than `a ^ b`.
differ_apart : (a b : ℕ) → a ≤ differ a b + b
differ_apart zero b = omega arith
differ_apart (suc a) zero = omega arith
differ_apart (suc a) (suc b) = omega (arith, differ_apart a b)

differ_sym : (a b : ℕ) → differ a b ≡ differ b a
differ_sym zero zero = refl
differ_sym zero (suc b) = refl
differ_sym (suc a) zero = refl
differ_sym (suc a) (suc b) = differ_sym a b

differ_same : (a : ℕ) → differ a a ≡ 0
differ_same zero = refl
differ_same (suc a) = differ_same a

bit_xor_apart : (n a b : ℕ) → a ≤ n → (a ≤ bit_xor a b + b) × (b ≤ bit_xor a b + a)
bit_xor_apart n zero b h = (omega arith, omega (arith, zero-bit_xor b))
bit_xor_apart zero (suc a) b h = absurd (omega arith)
bit_xor_apart (suc n) (suc a) b h =
    let half = bit_xor_apart n (suc a / 2) (b / 2) (omega arith) in
    let ones = differ_apart (suc a % 2) (b % 2) in
    let other = differ_apart (b % 2) (suc a % 2) in
    let turn = differ_sym (suc a % 2) (b % 2) in
    (
      omega (arith, bit_xor_halves (suc a) b, half.0, ones),
      omega (arith, bit_xor_halves (suc a) b, half.1, other, turn),
    )

pub bit_xor_same : (n a : ℕ) → a ≤ n → bit_xor a a ≡ 0
bit_xor_same n zero h = zero-bit_xor 0
bit_xor_same zero (suc a) h = absurd (omega arith)
bit_xor_same (suc n) (suc a) h = omega (
  arith,
  bit_xor_halves (suc a) (suc a),
  bit_xor_same n (suc a / 2) (omega arith),
  differ_same (suc a % 2),
)

-- `acc | (x ^ y)` is 0 only where `acc` is 0 and the numbers are the same.
pub bit_or-bit_xor_zero : (acc x y : ℕ) → bit_or acc (bit_xor x y) ≡ 0 → (acc ≡ 0) × (x ≡ y)
bit_or-bit_xor_zero acc x y h =
    let large = bit_or-large acc acc (bit_xor x y) (omega arith) in
    let near = bit_xor_apart x x y (omega arith) in
    (omega (arith, large, h), omega (arith, large, h, near.0, near.1))
