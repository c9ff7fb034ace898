-- ===== src/Export/Names/Candidates.antt =====
-- export.rs, file_name_for: the names that the loop tries are ASCII and differ in any case.
use qqflow_server.Prelude.{
  ℕ, zero, suc, ◌+◌, ◌<◌, ◌≡◌, refl, sym, ap, ◌∙◌, Bool, true, false, Bool-cases, inl, inr, [], ◌∷◌,
  ◌++◌, map, any, all, take, drop, drop-append_self, length, length-append, arith,
}
use qqflow_server.Text.{Text, utf8, text_eq, text_eq→eq, is_empty}
use qqflow_server.Text.Chars.{chars, from_chars, is_ascii, chars_ascii, from_chars_ascii}
use qqflow_server.Text.Decimal.{decimal}
use qqflow_server.Text.Value.{limit, decimal_injective, is_decimal, all-decimal}
use qqflow_server.Types.{to_ascii_lowercase, lower_byte}
use qqflow_server.PathSafe.{slugify, is_slug, slug_char, is_reserved_device}
use qqflow_server.PathSafe.Slug.{all-take, all-weaken, slug-is_ascii, all-map-slug_char}
use qqflow_server.Store.Media.{is_ascii_alphanumeric}
use qqflow_server.Export.Names.{SessionTarget, numbered, base_of, stem_of}

-- The name of the round `j`.
abbrev pub candidate : Text → ℕ → Text
candidate stem zero = stem
candidate stem (suc j) = numbered stem (j + 2)

all-slugify :
    (s fallback : Text) → all is_slug fallback ≡ true → all is_slug (slugify s fallback) ≡ true
unfolding slugify
all-slugify s fallback h =
    let w = take 64 (map slug_char (chars s)) in
    let slug = all-take is_slug 64 (map slug_char (chars s)) (all-map-slug_char (chars s)) in
    let plain = slug-is_ascii w slug in
    let same : from_chars w ≡ w = from_chars_ascii w plain in
    elim (Bool-cases (is_empty w)) [
      | inl e ↦ rw same (rw e h)
      | inr e ↦ elim (Bool-cases (is_reserved_device w)) [
        | inr free ↦ rw same (rw e (rw free slug))
        | inl device ↦
            let cut = all-take is_slug 63 w slug in
            let same' : from_chars (take 63 w) ≡ take 63 w =
              from_chars_ascii (take 63 w) (slug-is_ascii (take 63 w) cut) in
            rw same (rw e (rw device (rw (chars_ascii w plain) (rw same' (rw cut refl)))))
      ]
    ]

all-base_of : (target : SessionTarget) → all is_slug (base_of target) ≡ true
all-base_of target =
    let display = slugify target.display_name [] in
    elim (Bool-cases (any is_ascii_alphanumeric (chars display))) [
      | inl e ↦ rw (base_of, e) (all-slugify target.display_name [] refl)
      | inr e ↦ rw (base_of, e) (all-slugify target.talker (utf8 "session") refl)
    ]

-- A stem is made of ASCII letters, digits, `-` and `_`.
pub all-stem_of : (target : SessionTarget) → all is_slug (stem_of target) ≡ true
all-stem_of target =
    let b = base_of target in
    let plain = slug-is_ascii b (all-base_of target) in
    let cut = all-take is_slug 56 b (all-base_of target) in
    let same : from_chars (take 56 (chars b)) ≡ take 56 b =
      ap (λ c. from_chars (take 56 c)) (chars_ascii b plain)
      ∙ from_chars_ascii (take 56 b) (slug-is_ascii (take 56 b) cut) in
    elim (Bool-cases (is_empty (take 56 b))) [
      | inl e ↦ rw (stem_of, same, e) refl
      | inr e ↦ rw (stem_of, same, e) cut
    ]

pub stem_of-is_ascii : (target : SessionTarget) → all is_ascii (stem_of target) ≡ true
stem_of-is_ascii target = slug-is_ascii (stem_of target) (all-stem_of target)

lower-append :
    (s t : Text) → to_ascii_lowercase (s ++ t) ≡ to_ascii_lowercase s ++ to_ascii_lowercase t
lower-append [] t = refl
lower-append (c ∷ s) t = ap (λ r. lower_byte c ∷ r) (lower-append s t)

lower_decimal : (s : Text) → all is_decimal s ≡ true → to_ascii_lowercase s ≡ s
lower_decimal [] h = refl
lower_decimal (c ∷ s) h =
    let here : lower_byte c ≡ c = ground (arith, h) in
    ap (λ d. d ∷ to_ascii_lowercase s) here ∙ ap (λ r. c ∷ r) (lower_decimal s (ground (arith, h)))

pub all-append :
    (p : ℕ → Bool) (s t : Text) → all p s ≡ true → all p t ≡ true → all p (s ++ t) ≡ true
all-append p [] t h k = k
all-append p (c ∷ s) t h k = ground (arith, h, all-append p s t (ground (arith, h)) k)

pub all-numbered :
    (stem : Text) (n : ℕ) → all is_slug stem ≡ true → all is_slug (numbered stem n) ≡ true
all-numbered stem n h =
    let digits =
      all-weaken is_decimal is_slug (λ c k. ground (arith, k)) (decimal n) (all-decimal n) in
    all-append is_slug stem (b'-' ∷ decimal n) h (ground (arith, digits))

numbered-is_ascii :
    (stem : Text) (n : ℕ) → all is_ascii stem ≡ true → all is_ascii (numbered stem n) ≡ true
numbered-is_ascii stem n h =
    let digits =
      all-weaken is_decimal is_ascii (λ c k. ground (arith, k)) (decimal n) (all-decimal n) in
    all-append is_ascii stem (b'-' ∷ decimal n) h (ground (arith, digits))

folded_numbered :
    (stem : Text) (n : ℕ)
    → to_ascii_lowercase (numbered stem n) ≡ to_ascii_lowercase stem ++ b'-' ∷ decimal n
folded_numbered stem n =
    lower-append stem (b'-' ∷ decimal n)
    ∙ ap (λ d. to_ascii_lowercase stem ++ b'-' ∷ d) (lower_decimal (decimal n) (all-decimal n))

abbrev after_head : Text → Text
after_head [] = []
after_head (c ∷ s) = s

numbered_apart :
    (stem : Text) (m n : ℕ)
    → m < limit
    → n < limit
    → to_ascii_lowercase (numbered stem m) ≡ to_ascii_lowercase (numbered stem n)
    → m ≡ n
numbered_apart stem m n h k e =
    let low = to_ascii_lowercase stem in
    let same : low ++ b'-' ∷ decimal m ≡ low ++ b'-' ∷ decimal n =
      sym (folded_numbered stem m) ∙ e ∙ folded_numbered stem n in
    let tail =
      sym (drop-append_self low (b'-' ∷ decimal m))
      ∙ ap (drop (length low)) same
      ∙ drop-append_self low (b'-' ∷ decimal n) in
    decimal_injective m n h k (ap after_head tail)

pub candidate-is_ascii :
    (stem : Text) (j : ℕ) → all is_ascii stem ≡ true → all is_ascii (candidate stem j) ≡ true
candidate-is_ascii stem zero h = h
candidate-is_ascii stem (suc j) h = numbered-is_ascii stem (j + 2) h

-- A later name is another one, in any case.
pub candidate_apart :
    (stem : Text) (j k : ℕ)
    → j < k
    → k + 2 < limit
    → text_eq (to_ascii_lowercase (candidate stem j)) (to_ascii_lowercase (candidate stem k))
      ≡ false
candidate_apart stem j zero h few = absurd (omega (arith, h))
candidate_apart stem zero (suc k) h few =
    let a = to_ascii_lowercase stem in
    let b = to_ascii_lowercase (numbered stem (k + 2)) in
    elim (Bool-cases (text_eq a b)) [
      | inr e ↦ e
      | inl e ↦
          let long = ap (λ (t : Text). length t) (text_eq→eq a b e) in
          absurd (
            omega (
              arith,
              long,
              ap (λ (t : Text). length t) (folded_numbered stem (k + 2)),
              length-append (to_ascii_lowercase stem) (b'-' ∷ decimal (k + 2)),
            ))
    ]
candidate_apart stem (suc j) (suc k) h few =
    let a = to_ascii_lowercase (numbered stem (j + 2)) in
    let b = to_ascii_lowercase (numbered stem (k + 2)) in
    elim (Bool-cases (text_eq a b)) [
      | inr e ↦ e
      | inl e ↦
          let same =
            numbered_apart stem (j + 2) (k + 2) (omega (arith, h, few)) (omega (arith, few))
              (text_eq→eq a b e) in
          absurd (omega (arith, same, h))
    ]
