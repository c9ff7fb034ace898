-- ===== src/PathSafe/Slug.antt =====
-- `slugify` gives names that `safe_segment` accepts.
use qqflow_server.Prelude.{
  ℕ, zero, suc, ◌≤◌, ◌≡◌, refl, Bool, true, false, Bool-cases, inl, inr, List, [], ◌∷◌, map, any,
  all, take, length, length-take, leb, arith, ◌==◌,
}
use qqflow_server.Text.{Text, is_empty, text_eq, utf8}
use qqflow_server.Text.Chars.{chars, from_chars, is_ascii, chars_ascii, from_chars_ascii, drop_end}
use qqflow_server.PathSafe.{
  max_segment, is_reserved_device, is_device, is_port, is_control, is_dot_or_space, ends_with,
  safe_segment, is_slug, slug_char, slugify, upper_byte, before_first_dot,
}

pub all-map-slug_char : (cs : List ℕ) → all is_slug (map slug_char cs) ≡ true
all-map-slug_char [] = refl
all-map-slug_char (c ∷ cs) = elim (Bool-cases (is_slug c)) [
  | inl e ↦ ground (arith, e, all-map-slug_char cs)
  | inr e ↦ ground (arith, e, all-map-slug_char cs)
]

pub all-take : (p : ℕ → Bool) (n : ℕ) (cs : List ℕ) → all p cs ≡ true → all p (take n cs) ≡ true
all-take p zero cs h = refl
all-take p (suc n) [] h = refl
all-take p (suc n) (c ∷ cs) h = ground (arith, h, all-take p n cs)

pub all-weaken :
    (p q : ℕ → Bool)
    → ((c : ℕ) → p c ≡ true → q c ≡ true)
    → (s : List ℕ) → all p s ≡ true
    → all q s ≡ true
all-weaken p q f [] h = refl
all-weaken p q f (c ∷ s) h = ground (arith, h, f c, all-weaken p q f s)

any-none :
    (p q : ℕ → Bool)
    → ((c : ℕ) → p c ≡ true → q c ≡ false)
    → (s : List ℕ) → all p s ≡ true
    → any q s ≡ false
any-none p q f [] h = refl
any-none p q f (c ∷ s) h = ground (arith, h, f c, any-none p q f s)

ends_with-none :
    (b : ℕ)
    → ((c : ℕ) → is_slug c ≡ true → (c == b) ≡ false)
    → (s : Text) → all is_slug s ≡ true
    → ends_with b s ≡ false
ends_with-none b f [] h = refl
ends_with-none b f (c ∷ []) h = f c (ground (arith, h))
ends_with-none b f (c ∷ d ∷ s) h = ends_with-none b f (d ∷ s) (ground (arith, h))

pub slug-is_ascii : (s : Text) → all is_slug s ≡ true → all is_ascii s ≡ true
slug-is_ascii = all-weaken is_slug is_ascii (λ c h. ground arith)

no_dots :
    (s : Text)
    → all is_slug s ≡ true
    → (text_eq s (utf8 ".") ≡ false) × (text_eq s (utf8 "..") ≡ false)
no_dots [] h = (refl, refl)
no_dots (c ∷ s) h = (ground (arith, h), ground (arith, h))

slug-safe_segment :
    (s : Text)
    → all is_slug s ≡ true
    → is_empty s ≡ false
    → length s ≤ max_segment
    → is_reserved_device s ≡ false
    → safe_segment s ≡ true
unfolding safe_segment
slug-safe_segment s h filled short free =
    let same : chars s ≡ s = chars_ascii s (slug-is_ascii s h) in
    let slash = any-none is_slug (λ x. x == b'/') (λ c k. ground arith) s h in
    let backslash = any-none is_slug (λ x. x == b'\\') (λ c k. ground arith) s h in
    let colon = any-none is_slug (λ x. x == b':') (λ c k. ground arith) s h in
    let control = any-none is_slug is_control (λ c k. ground arith) s h in
    let dot = ends_with-none b'.' (λ c k. ground arith) s h in
    let space = ends_with-none b' ' (λ c k. ground arith) s h in
    let (one, two) = no_dots s h in
    let fits : leb (length s) max_segment ≡ true = ground (arith, short) in
    rw (same, filled, fits, one, two, slash, backslash, colon, control, dot, space, free) refl

is_port_underscore : (s : Text) → is_port (b'_' ∷ s) ≡ false
is_port_underscore [] = refl
is_port_underscore (a ∷ []) = refl
is_port_underscore (a ∷ b ∷ []) = refl
is_port_underscore (a ∷ b ∷ c ∷ []) = refl
is_port_underscore (a ∷ b ∷ c ∷ d ∷ s) = refl

is_device_underscore : (s : Text) → is_device (b'_' ∷ s) ≡ false
is_device_underscore s = rw (is_port_underscore s) refl

is_reserved_device_underscore : (s : Text) → is_reserved_device (b'_' ∷ s) ≡ false
unfolding is_reserved_device drop_end
is_reserved_device_underscore s =
    is_device_underscore (map upper_byte (drop_end is_dot_or_space (before_first_dot s)))

-- Whatever the name, `slugify` with a safe fallback gives a safe component of a path.
pub slugify-safe_segment :
    (s fallback : Text) → safe_segment fallback ≡ true → safe_segment (slugify s fallback) ≡ true
unfolding slugify
slugify-safe_segment s fallback h =
    let w = take 64 (map slug_char (chars s)) in
    let slug : all is_slug w ≡ true =
      all-take is_slug 64 (map slug_char (chars s)) (all-map-slug_char (chars s)) in
    let same : from_chars w ≡ w = from_chars_ascii w (slug-is_ascii w slug) in
    let short : length w ≤ 64 = omega (arith, length-take 64 (map slug_char (chars s))) in
    elim (Bool-cases (is_empty w)) [
      | inl e ↦ rw same (rw e h)
      | inr e ↦ elim (Bool-cases (is_reserved_device w)) [
        | inr free ↦
            rw same (rw e (rw free (slug-safe_segment w slug e (omega (arith, short)) free)))
        | inl device ↦
            let cut = take 63 w in
            let slug' : all is_slug cut ≡ true = all-take is_slug 63 w slug in
            let chars_w : chars w ≡ w = chars_ascii w (slug-is_ascii w slug) in
            let same' : from_chars cut ≡ cut = from_chars_ascii cut (slug-is_ascii cut slug') in
            rw same (
              rw e (
                rw device (
                  rw chars_w (
                    rw same' (
                      slug-safe_segment (b'_' ∷ cut) (rw slug' refl) refl
                        (omega (arith, length-take 63 w)) (is_reserved_device_underscore cut))))))
      ]
    ]
