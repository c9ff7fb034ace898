-- ===== src/Export/Secret/Encoded.antt =====
-- export.rs: the forms of the token that `assert_no_secret` finds.
use qqflow_server.Prelude.{
  ℕ, ◌+◌, ◌*◌, ◌/◌, ◌%◌, ◌≤◌, ◌<◌, ◌≡◌, refl, sym, ap, ◌∙◌, Bool, true, false, not, ◌||◌,
  Bool-cases, inl, inr, some, [], ◌∷◌, ◌++◌, All, length, ltb, ◌==◌, arith,
}
use qqflow_server.Text.{Text, text_eq, text_eq→eq, is_empty, contains_text, starts_with}
use qqflow_server.Types.{to_ascii_lowercase, lower_byte}
use qqflow_server.Export.Secret.{
  is_unreserved, hex_digit, percent_encode, hex_value, hex_pair, decode_loop, percent_decode, leaks,
  is_clean,
}

abbrev pub IsByte : ℕ → Type 0
IsByte b = b < 256

hex_value-hex_digit : (n : ℕ) → n < 16 → hex_value (hex_digit n) ≡ some n
hex_value-hex_digit n h = elim (Bool-cases (ltb n 10)) [
  | inl e ↦ ground (arith, e)
  | inr e ↦ ground (arith, e, h)
]

hex_pair-hex_digit : (b : ℕ) → b < 256 → hex_pair (hex_digit (b / 16)) (hex_digit (b % 16)) ≡ some b
hex_pair-hex_digit b h =
    let hi = hex_value-hex_digit (b / 16) (omega (arith, h)) in
    let lo = hex_value-hex_digit (b % 16) (omega arith) in
    let whole : b / 16 * 16 + b % 16 ≡ b = omega arith in rw (hex_pair, hi) (rw lo (ap some whole))

decode_loop-plain :
    (b : ℕ) (t : Text) → (b == b'%') ≡ false → decode_loop (b ∷ t) ≡ b ∷ decode_loop t
unfolding decode_loop
decode_loop-plain b [] h = refl
decode_loop-plain b (x ∷ []) h = refl
decode_loop-plain b (x ∷ y ∷ t) h = rw (decode_loop, h) refl

unreserved_plain : (b : ℕ) → is_unreserved b ≡ true → (b == b'%') ≡ false
unreserved_plain b h = ground (arith, h)

decode_loop-pair :
    (x y b : ℕ) (t : Text)
    → hex_pair x y ≡ some b
    → decode_loop (b'%' ∷ x ∷ y ∷ t) ≡ b ∷ decode_loop t
unfolding decode_loop
decode_loop-pair x y b t h = rw (decode_loop, h) refl

-- The bytes that `percent_encode` wrote are read back, whatever stands behind them.
pub decode_loop-percent_encode :
    (s rest : Text) → All IsByte s → decode_loop (percent_encode s ++ rest) ≡ s ++ decode_loop rest
unfolding percent_encode
decode_loop-percent_encode [] rest h = refl
decode_loop-percent_encode (b ∷ s) rest h = elim (Bool-cases (is_unreserved b)) [
  | inl e ↦
      rw (percent_encode, e)
        (decode_loop-plain b (percent_encode s ++ rest) (unreserved_plain b e)
          ∙ ap (λ t. b ∷ t) (decode_loop-percent_encode s rest h.1))
  | inr e ↦
      rw (percent_encode, e)
        (decode_loop-pair (hex_digit (b / 16)) (hex_digit (b % 16)) b (percent_encode s ++ rest)
            (hex_pair-hex_digit b h.0)
          ∙ ap (λ t. b ∷ t) (decode_loop-percent_encode s rest h.1))
]

length-percent_encode : (s : Text) → length s ≤ length (percent_encode s)
unfolding percent_encode
length-percent_encode [] = omega arith
length-percent_encode (b ∷ s) = elim (Bool-cases (is_unreserved b)) [
  | inl e ↦ rw (percent_encode, e) (omega (arith, length-percent_encode s))
  | inr e ↦ rw (percent_encode, e) (omega (arith, length-percent_encode s))
]

-- A token that is no longer when it is encoded is the same.
percent_encode-same : (s : Text) → length (percent_encode s) ≤ length s → percent_encode s ≡ s
unfolding percent_encode
percent_encode-same [] h = refl
percent_encode-same (b ∷ s) h = elim (Bool-cases (is_unreserved b)) [
  | inl e ↦
      let tail : length (percent_encode s) ≤ length s =
        omega (arith, rw (percent_encode, e) at h) in
      rw (percent_encode, e) (ap (λ t. b ∷ t) (percent_encode-same s tail))
  | inr e ↦ absurd (omega (arith, rw (percent_encode, e) at h, length-percent_encode s))
]

length-lower : (s : Text) → length (to_ascii_lowercase s) ≡ length s
length-lower [] = refl
length-lower (b ∷ s) = omega (arith, length-lower s)

starts_with-lower :
    (k s : Text)
    → starts_with k s ≡ true
    → starts_with (to_ascii_lowercase k) (to_ascii_lowercase s) ≡ true
starts_with-lower [] s h = refl
starts_with-lower (x ∷ k) [] h = absurd (cc h)
starts_with-lower (x ∷ k) (b ∷ s) h =
    let same : x ≡ b = ground (arith, h) in
    let tail : starts_with k s ≡ true = ground (arith, h) in
    let low : (lower_byte x == lower_byte b) ≡ true = ground (arith, ap lower_byte same) in
    ground (arith, low, starts_with-lower k s tail)

contains_text-lower :
    (k s : Text)
    → contains_text k s ≡ true
    → contains_text (to_ascii_lowercase k) (to_ascii_lowercase s) ≡ true
contains_text-lower [] [] h = refl
contains_text-lower (x ∷ k) [] h = absurd (cc h)
contains_text-lower k (b ∷ s) h = elim (Bool-cases (starts_with k (b ∷ s))) [
  | inl here ↦ ground (arith, starts_with-lower k (b ∷ s) here)
  | inr other ↦
      let tail : contains_text k s ≡ true = ground (arith, h, other) in
      ground (arith, contains_text-lower k s tail)
]

neither : (a b : Bool) → not (a || b) ≡ true → (a ≡ false) × (b ≡ false)
neither false false h = (refl, refl)
neither true b h = absurd (cc h)
neither false true h = absurd (cc h)

left_false : (a b : Bool) → (a || b) ≡ false → a ≡ false
left_false false b h = refl
left_false true b h = h

module _ (to_string : Text → Text) where
  leaks-encoded :
      (secret hay : Text)
      → contains_text (percent_encode secret) hay ≡ true
      → leaks to_string secret hay ≡ true
  leaks-encoded secret hay h =
      let folded = to_ascii_lowercase (percent_encode secret) in
      elim (Bool-cases (text_eq folded (to_ascii_lowercase secret))) [
        | inl same ↦
            let long =
              ap (λ (t : Text). length t) (text_eq→eq folded (to_ascii_lowercase secret) same) in
            let plain =
              percent_encode-same secret
                (omega (arith, long, length-lower secret, length-lower (percent_encode secret))) in
            let there : contains_text secret hay ≡ true =
              ap (λ k. contains_text k hay) (sym plain) ∙ h in
            ground (arith, there)
        | inr other ↦
            let there = contains_text-lower (percent_encode secret) hay h in
            ground (arith, other, there)
      ]

  no_leak :
      (secret hay : Text)
      → leaks to_string secret hay ≡ false
      → (contains_text secret hay ≡ false) × (contains_text (percent_encode secret) hay ≡ false)
  no_leak secret hay h = (
    left_false (contains_text secret hay) _ (left_false _ _ h),
    elim (Bool-cases (contains_text (percent_encode secret) hay)) [
      | inr e ↦ e
      | inl e ↦ absurd (cc (sym (leaks-encoded secret hay e) ∙ h))
    ],
  )

  -- A line that passes holds a token that is not empty neither as it is, nor
  -- percent-encoded, and its percent-decoded form holds neither.
  pub is_clean-leaks :
      (secret line : Text)
      → is_empty secret ≡ false
      → is_clean to_string secret line ≡ true
      → (contains_text secret line ≡ false)
        × (contains_text (percent_encode secret) line ≡ false)
        × (contains_text secret (percent_decode line) ≡ false)
        × (contains_text (percent_encode secret) (percent_decode line) ≡ false)
  unfolding is_clean
  is_clean-leaks secret line full h =
      let both =
        neither (leaks to_string secret line) (leaks to_string secret (percent_decode line))
          (rw (is_clean, full) at h) in
      let own = no_leak secret line both.0 in
      let decoded = no_leak secret (percent_decode line) both.1 in
      (own.0, own.1, decoded.0, decoded.1)
