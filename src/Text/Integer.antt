-- ===== src/Text/Integer.antt =====
-- `parse` of an unsigned integer, below the bound that its type has.
use qqflow_server.Prelude.{
  ℕ, ◌≤◌, ◌<◌, ◌≡◌, ap, true, false, Bool-cases, inl, inr, not, ◌||◌, Option, none, some, [], ◌∷◌,
  all, length, ltb, ◌==◌, if◌then◌else◌, arith,
}
use mathlib.Core.Option.{some-injective}
use qqflow_server.Text.{Text, is_empty}
use qqflow_server.Text.Decimal.{decimal}
use qqflow_server.Text.Value.{value, is_decimal, all-decimal, value-decimal64, decimal_filled}

abbrev pub digits_below : ℕ → Text → Option ℕ
digits_below bound s =
    if is_empty s || not (all is_decimal s)
    then none
    else if ltb (value 0 s) bound
    then some (value 0 s)
    else none

unfoldable pub parse_below : ℕ → Text → Option ℕ
parse_below bound [] = none
parse_below bound (c ∷ s) = if c == b'+' then digits_below bound s else digits_below bound (c ∷ s)

parse_below-digits :
    (bound : ℕ) (s : Text) (n : ℕ)
    → all is_decimal s ≡ true
    → 1 ≤ length s
    → value 0 s ≡ n
    → n < bound
    → parse_below bound s ≡ some n
unfolding parse_below
parse_below-digits bound [] n digits filled same small = absurd (omega (arith, filled))
parse_below-digits bound (c ∷ s) n digits filled same small =
    let sign : (c == b'+') ≡ false = ground (arith, digits) in
    let fits : ltb (value 0 (c ∷ s)) bound ≡ true = ground (arith, same, small) in
    rw sign (rw (digits_below, digits, fits) (ap (λ x. some x) same))

pub parse_below-decimal :
    (bound n : ℕ)
    → bound ≤ 18446744073709551616
    → n < bound
    → parse_below bound (decimal n) ≡ some n
parse_below-decimal bound n limit h =
    parse_below-digits bound (decimal n) n (all-decimal n) (decimal_filled n)
      (value-decimal64 n (omega (arith, limit, h))) h

digits_below-below : (bound : ℕ) (s : Text) (n : ℕ) → digits_below bound s ≡ some n → n < bound
digits_below-below bound s n h = elim (Bool-cases (is_empty s || not (all is_decimal s))) [
  | inl e ↦ absurd (cc (rw e at h))
  | inr e ↦ elim (Bool-cases (ltb (value 0 s) bound)) [
    | inl k ↦
        let same : value 0 s ≡ n = some-injective (value 0 s) n (rw (e, k) at h) in
        ground (arith, k, same)
    | inr k ↦ absurd (cc (rw (e, k) at h))
  ]
]

-- What is read is below the bound.
pub parse_below-below : (bound : ℕ) (s : Text) (n : ℕ) → parse_below bound s ≡ some n → n < bound
unfolding parse_below
parse_below-below bound [] n h = absurd (cc h)
parse_below-below bound (c ∷ s) n h = elim (Bool-cases (c == b'+')) [
  | inl e ↦ digits_below-below bound s n (rw e at h)
  | inr e ↦ digits_below-below bound (c ∷ s) n (rw e at h)
]
