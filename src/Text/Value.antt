-- ===== src/Text/Value.antt =====
-- The number that a decimal says.
use qqflow_server.Prelude.{
  ℕ, zero, suc, ◌+◌, ◌-◌, ◌*◌, ◌/◌, ◌%◌, ◌^◌, ◌<◌, ◌≤◌, length, ◌≡◌, refl, sym, ap, ◌∙◌, Bool, true,
  Bool-cases, inl, inr, [], ◌∷◌, all, ◌==◌, leb, ◌&&◌, arith,
}
use native.Mathlib.Nat.{pow-suc}
use qqflow_server.Text.{Text}
use qqflow_server.Text.Decimal.{digits_loop, decimal}

abbrev pub value : ℕ → Text → ℕ
value a [] = a
value a (d ∷ ds) = value (a * 10 + (d - b'0')) ds

pub value-digits_loop :
    (fuel n : ℕ) (acc : Text) → n < 10 ^ fuel → value 0 (digits_loop fuel n acc) ≡ value n acc
unfolding digits_loop
value-digits_loop zero n acc h = let e : n ≡ 0 = omega (arith, h) in rw e refl
value-digits_loop (suc fuel) n acc h =
    let digit : n / 10 * 10 + (b'0' + n % 10 - b'0') ≡ n = omega arith in
    elim (Bool-cases (n / 10 == 0)) [
      | inl e ↦
          let low : 0 * 10 + (b'0' + n % 10 - b'0') ≡ n = ground (arith, e, digit) in
          rw (digits_loop, e) (ap (λ a. value a acc) low)
      | inr e ↦
          rw (digits_loop, e)
            (value-digits_loop fuel (n / 10) ((b'0' + n % 10) ∷ acc)
                (omega (arith, h, pow-suc 10 fuel))
              ∙ ap (λ a. value a acc) digit)
    ]

abbrev pub limit : ℕ
limit = 4294967296

value-decimal : (n : ℕ) → n < limit → value 0 (decimal n) ≡ n
unfolding decimal
value-decimal n h = value-digits_loop 20 n [] (omega (arith, h))

-- Different numbers of 32 bits have different decimals.
pub decimal_injective : (m n : ℕ) → m < limit → n < limit → decimal m ≡ decimal n → m ≡ n
decimal_injective m n h k e = sym (value-decimal m h) ∙ ap (value 0) e ∙ value-decimal n k

abbrev pub is_decimal : ℕ → Bool
is_decimal c = leb b'0' c && leb c b'9'

all-digits_loop :
    (fuel n : ℕ) (acc : Text)
    → all is_decimal acc ≡ true
    → all is_decimal (digits_loop fuel n acc) ≡ true
unfolding digits_loop
all-digits_loop zero n acc h = h
all-digits_loop (suc fuel) n acc h =
    let acc' = (b'0' + n % 10) ∷ acc in
    let more : all is_decimal acc' ≡ true = ground (arith, h) in
    elim (Bool-cases (n / 10 == 0)) [
      | inl e ↦ rw (digits_loop, e) more
      | inr e ↦ rw (digits_loop, e) (all-digits_loop fuel (n / 10) acc' more)
    ]

pub all-decimal : (n : ℕ) → all is_decimal (decimal n) ≡ true
unfolding decimal
all-decimal n = all-digits_loop 20 n [] refl

pub value-decimal64 : (n : ℕ) → n < 18446744073709551616 → value 0 (decimal n) ≡ n
unfolding decimal
value-decimal64 n h = value-digits_loop 20 n [] (omega (arith, h))

length-digits_loop : (fuel n : ℕ) (acc : Text) → length acc ≤ length (digits_loop fuel n acc)
unfolding digits_loop
length-digits_loop zero n acc = omega arith
length-digits_loop (suc fuel) n acc =
    let acc' = (b'0' + n % 10) ∷ acc in
    elim (Bool-cases (n / 10 == 0)) [
      | inl e ↦ rw (digits_loop, e) (omega arith)
      | inr e ↦ rw (digits_loop, e) (omega (arith, length-digits_loop fuel (n / 10) acc'))
    ]

-- A decimal has a digit.
pub decimal_filled : (n : ℕ) → 1 ≤ length (decimal n)
unfolding decimal digits_loop
decimal_filled n =
    let acc = (b'0' + n % 10) ∷ [] in
    elim (Bool-cases (n / 10 == 0)) [
      | inl e ↦ rw (digits_loop, e) (omega arith)
      | inr e ↦ rw (digits_loop, e) (omega (arith, length-digits_loop 19 (n / 10) acc))
    ]
