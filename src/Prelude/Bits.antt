-- ===== src/Prelude/Bits.antt =====
-- `|` of numbers with no common binary digit is their sum, at every width.
use Prim.Native.Nat.{
  ℕ, zero, suc, ◌+◌, ◌-◌, ◌*◌, ◌/◌, ◌%◌, ◌^◌, ◌≤◌, ◌<◌, min, max, bit_and, bit_or, digits,
  bit_and-bitwise, bit_or-bitwise,
}
use mathlib.Core.Path.{◌≡◌, refl, ap, ◌∙◌}
use native.Mathlib.Nat.{pow-suc}
use native.Mathlib.Omega.{arith}

-- Both operations recurse on the binary digits of the first number, which is fuel enough.
module _ (z : ℕ → ℕ) (f : ℕ → ℕ → ℕ) where
  digits-suc : (a b n : ℕ) → a ≤ n → digits z f (suc n) a b ≡ digits z f n a b
  digits-suc zero b zero h = refl
  digits-suc (suc a) b zero h = absurd (omega arith)
  digits-suc zero b (suc n) h = refl
  digits-suc (suc a) b (suc n) h = omega (arith, digits-suc (suc a / 2) (b / 2) n (omega arith))

  digits-add : (more a b n : ℕ) → a ≤ n → digits z f (more + n) a b ≡ digits z f n a b
  digits-add zero a b n h = let e : zero + n ≡ n = omega arith in rw e refl
  digits-add (suc more) a b n h =
      let e : suc more + n ≡ suc (more + n) = omega arith in
      rw e (digits-suc a b (more + n) (omega arith) ∙ digits-add more a b n h)

  -- The fuel that is left behind the lowest digit does not matter.
  pub digits_rest : (a b : ℕ) → digits z f a (suc a / 2) b ≡ digits z f (suc a / 2) (suc a / 2) b
  digits_rest a b =
      let e : a ≡ a - suc a / 2 + suc a / 2 = omega arith in
      ap (λ (n : ℕ). digits z f n (suc a / 2) b) e
      ∙ digits-add (a - suc a / 2) (suc a / 2) b (suc a / 2) (omega arith)

pub zero-bit_or : (b : ℕ) → bit_or 0 b ≡ b
zero-bit_or b = bit_or-bitwise 0 b

pub bit_or_halves : (a b : ℕ) → bit_or a b ≡ bit_or (a / 2) (b / 2) * 2 + max (a % 2) (b % 2)
bit_or_halves zero b = omega (arith, zero-bit_or b, zero-bit_or (b / 2))
bit_or_halves (suc a) b = omega (
  arith,
  bit_or-bitwise (suc a) b,
  bit_or-bitwise (suc a / 2) (b / 2),
  digits_rest (λ t. t) max a (b / 2),
)

double_shift : (g k : ℕ) → g * 2 ^ suc k ≡ 2 * (g * 2 ^ k)
double_shift g k = omega (arith, ap (λ (t : ℕ). g * t) (pow-suc 2 k))

-- `v | (g << k)` for a `v` that fits `k` bits.
pub bit_or_shifted : (k v g : ℕ) → v < 2 ^ k → bit_or v (g * 2 ^ k) ≡ v + g * 2 ^ k
bit_or_shifted zero v g h = let e : v ≡ 0 = omega arith in rw e (rw zero-bit_or (omega arith))
bit_or_shifted (suc k) v g h = ground (
  arith,
  bit_or_halves v (g * 2 ^ suc k),
  double_shift g k,
  bit_or_shifted k (v / 2) g (omega (arith, pow-suc 2 k)),
)

-- `b | 0x80` of a group of seven bits.
pub set_top : (b : ℕ) → b < 128 → bit_or b 0x80 ≡ b + 128
set_top b h = bit_or_shifted 7 b 1 h

zero-bit_and : (b : ℕ) → bit_and 0 b ≡ 0
zero-bit_and b = bit_and-bitwise 0 b

bit_and_halves : (a b : ℕ) → bit_and a b ≡ bit_and (a / 2) (b / 2) * 2 + min (a % 2) (b % 2)
bit_and_halves zero b = omega (arith, zero-bit_and b, zero-bit_and (b / 2))
bit_and_halves (suc a) b = omega (
  arith,
  bit_and-bitwise (suc a) b,
  bit_and-bitwise (suc a / 2) (b / 2),
  digits_rest (λ t. 0) min a (b / 2),
)

bit_and-zero : (n a : ℕ) → a ≤ n → bit_and a 0 ≡ 0
bit_and-zero n zero h = zero-bit_and 0
bit_and-zero zero (suc a) h = absurd (omega arith)
bit_and-zero (suc n) (suc a) h =
    omega (arith, bit_and_halves (suc a) 0, bit_and-zero n (suc a / 2) (omega arith))

-- An even mask skips the lowest digit.
bit_and-even : (b m : ℕ) → bit_and b (m * 2) ≡ bit_and (b / 2) m * 2
bit_and-even b m =
    let half : m * 2 / 2 ≡ m = omega arith in
    omega (arith, bit_and_halves b (m * 2), ap (λ (k : ℕ). bit_and (b / 2) k) half)

bit_and-one : (b : ℕ) → b < 2 → bit_and b 1 ≡ b
bit_and-one b h = omega (arith, bit_and_halves b 1, bit_and-zero (b / 2) (b / 2) (omega arith))

-- `b & 0x80` of a byte.
pub top_bit : (b : ℕ) → b < 256 → bit_and b 0x80 ≡ b / 128 * 128
top_bit b h = omega (
  arith,
  bit_and-even (b) 64,
  bit_and-even (b / 2) 32,
  bit_and-even (b / 2 / 2) 16,
  bit_and-even (b / 2 / 2 / 2) 8,
  bit_and-even (b / 2 / 2 / 2 / 2) 4,
  bit_and-even (b / 2 / 2 / 2 / 2 / 2) 2,
  bit_and-even (b / 2 / 2 / 2 / 2 / 2 / 2) 1,
  bit_and-one (b / 2 / 2 / 2 / 2 / 2 / 2 / 2) (omega arith),
)

-- `x & 7`, at every number.
pub low_three : (a : ℕ) → bit_and a 7 ≡ a % 8
low_three a = omega (
  arith,
  bit_and_halves a 7,
  bit_and_halves (a / 2) 3,
  bit_and_halves (a / 2 / 2) 1,
  bit_and-zero (a / 2 / 2 / 2) (a / 2 / 2 / 2) (omega arith),
)

-- `x & 0x7f`, at every number.
pub low_seven : (a : ℕ) → bit_and a 0x7f ≡ a % 128
low_seven a = omega (
  arith,
  bit_and_halves a 127,
  bit_and_halves (a / 2) 63,
  bit_and_halves (a / 2 / 2) 31,
  bit_and_halves (a / 2 / 2 / 2) 15,
  low_three (a / 2 / 2 / 2 / 2),
)

bit_or-zero : (n a : ℕ) → a ≤ n → bit_or a 0 ≡ a
bit_or-zero n zero h = zero-bit_or 0
bit_or-zero zero (suc a) h = absurd (omega arith)
bit_or-zero (suc n) (suc a) h =
    omega (arith, bit_or_halves (suc a) 0, bit_or-zero n (suc a / 2) (omega arith))

-- `(x << 3) | y` for a `y` of three bits.
pub bit_or_low_three : (x y : ℕ) → y < 8 → bit_or (x * 8) y ≡ x * 8 + y
bit_or_low_three x y h = omega (
  arith,
  bit_or_halves (x * 8) y,
  bit_or_halves (x * 8 / 2) (y / 2),
  bit_or_halves (x * 8 / 2 / 2) (y / 2 / 2),
  high,
)
  where
    quarter : x * 8 / 2 / 2 / 2 ≡ x
    quarter = omega arith

    none_left : y / 2 / 2 / 2 ≡ 0
    none_left = omega arith

    high : bit_or (x * 8 / 2 / 2 / 2) (y / 2 / 2 / 2) ≡ x
    high = rw (quarter, none_left) (bit_or-zero x x (omega arith))
