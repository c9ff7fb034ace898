-- ===== src/Prelude/Lists.antt =====
-- Lists measured and indexed by native numbers, under the library's names.
use Prim.Native.Nat.{ℕ, zero, suc, ◌+◌, ◌-◌, ◌≤◌, ◌<◌, min}
use mathlib.Core.Path.{◌≡◌, refl, sym, ap, ◌∙◌}
use mathlib.Core.Bool.{Bool, true, false, ◌&&◌, ◌||◌}
use mathlib.Core.List.{List, [], ◌∷◌, ◌++◌, map}
use mathlib.Core.Option.{Option, none, some}
use native.Mathlib.Numerals.{add-one}
use native.Mathlib.Omega.{arith}
use mathlib.Core.Logic.{inl, inr}
use qqflow_server.Prelude.Tests.{Bool-cases}

module _ {ℓ} {A : Type ℓ} where
  abbrev pub length : List A → ℕ
  length [] = 0
  length (x ∷ xs) = suc (length xs)

  abbrev pub get_elem? : List A → ℕ → Option A
  get_elem? [] i = none
  get_elem? (x ∷ xs) zero = some x
  get_elem? (x ∷ xs) (suc i) = get_elem? xs i

  abbrev pub take : ℕ → List A → List A
  take zero xs = []
  take (suc n) [] = []
  take (suc n) (x ∷ xs) = x ∷ take n xs

  abbrev pub drop : ℕ → List A → List A
  drop zero xs = xs
  drop (suc n) [] = []
  drop (suc n) (x ∷ xs) = drop n xs

  abbrev pub All {κ} : (A → Type κ) → List A → Type κ
  All P [] = Unit {κ}
  All P (x ∷ xs) = P x × All P xs

  -- Rust's `iter().filter(…)`, with a Boolean test.
  abbrev pub keep : (A → Bool) → List A → List A
  keep p [] = []
  keep p (x ∷ xs) = elim (p x) [ true ↦ x ∷ keep p xs | false ↦ keep p xs ]

  -- Rust's `iter().find(…)`.
  abbrev pub find : (A → Bool) → List A → Option A
  find p [] = none
  find p (x ∷ xs) = elim (p x) [ true ↦ some x | false ↦ find p xs ]

  abbrev pub any : (A → Bool) → List A → Bool
  any p [] = false
  any p (x ∷ xs) = p x || any p xs

  abbrev pub all : (A → Bool) → List A → Bool
  all p [] = true
  all p (x ∷ xs) = p x && all p xs

  pub length-append : (xs ys : List A) → length (xs ++ ys) ≡ length xs + length ys
  length-append [] ys = omega arith
  length-append (x ∷ xs) ys = omega (arith, length-append xs ys)

  pub length-drop : (n : ℕ) (xs : List A) → length (drop n xs) ≡ length xs - n
  length-drop zero xs = omega arith
  length-drop (suc n) [] = omega arith
  length-drop (suc n) (x ∷ xs) = omega (arith, length-drop n xs)

  pub length-take : (n : ℕ) (xs : List A) → length (take n xs) ≡ min n (length xs)
  length-take zero xs = omega arith
  length-take (suc n) [] = omega arith
  length-take (suc n) (x ∷ xs) = omega (arith, length-take n xs)

  pub take-append-drop : (n : ℕ) (xs : List A) → take n xs ++ drop n xs ≡ xs
  take-append-drop zero xs = refl
  take-append-drop (suc n) [] = refl
  take-append-drop (suc n) (x ∷ xs) = rw (take-append-drop n xs)

  pub take-append_self : (xs ys : List A) → take (length xs) (xs ++ ys) ≡ xs
  take-append_self [] ys = refl
  take-append_self (x ∷ xs) ys = rw (take-append_self xs ys)

  pub drop-append_self : (xs ys : List A) → drop (length xs) (xs ++ ys) ≡ ys
  drop-append_self [] ys = refl
  drop-append_self (x ∷ xs) ys = drop-append_self xs ys

  pub take-nil : (n : ℕ) → take n [] ≡ []
  take-nil zero = refl
  take-nil (suc n) = refl

  pub drop-nil : (n : ℕ) → drop n [] ≡ []
  drop-nil zero = refl
  drop-nil (suc n) = refl

  pub drop-drop : (m n : ℕ) (xs : List A) → drop m (drop n xs) ≡ drop (n + m) xs
  drop-drop m zero xs = let e : zero + m ≡ m = omega arith in rw e
  drop-drop m (suc n) [] = drop-nil m ∙ sym (drop-nil (suc n + m))
  drop-drop m (suc n) (x ∷ xs) =
      let e : suc n + m ≡ suc (n + m) = omega arith in rw e (drop-drop m n xs)

  -- Reading at an index is reading the head of what is left.
  pub get_elem?-drop :
      (i : ℕ) (xs : List A) {x : A} {rest : List A} → drop i xs ≡ x ∷ rest → get_elem? xs i ≡ some x
  get_elem?-drop zero [] h = ground arith
  get_elem?-drop zero (y ∷ xs) h = ground arith
  get_elem?-drop (suc i) [] h = ground arith
  get_elem?-drop (suc i) (y ∷ xs) h = get_elem?-drop i xs h

  drop-suc :
      (i : ℕ) (xs : List A) {x : A} {rest : List A} → drop i xs ≡ x ∷ rest → drop (suc i) xs ≡ rest
  drop-suc zero [] h = ground arith
  drop-suc zero (y ∷ xs) h = ground arith
  drop-suc (suc i) [] h = ground arith
  drop-suc (suc i) (y ∷ xs) h = drop-suc i xs h

  pub drop-next :
      (i : ℕ) (xs : List A) {x : A} {rest : List A} → drop i xs ≡ x ∷ rest → drop (i + 1) xs ≡ rest
  drop-next i xs h = rw add-one (drop-suc i xs h)

  pub get_elem?-drop_nil : (i : ℕ) (xs : List A) → drop i xs ≡ [] → get_elem? xs i ≡ none
  get_elem?-drop_nil zero [] h = refl
  get_elem?-drop_nil zero (y ∷ xs) h = ground arith
  get_elem?-drop_nil (suc i) [] h = refl
  get_elem?-drop_nil (suc i) (y ∷ xs) h = get_elem?-drop_nil i xs h

  pub get_elem?-lt : (i : ℕ) (xs : List A) {x : A} → get_elem? xs i ≡ some x → i < length xs
  get_elem?-lt i [] h = ground arith
  get_elem?-lt zero (y ∷ xs) h = omega arith
  get_elem?-lt (suc i) (y ∷ xs) h = omega (arith, get_elem?-lt i xs h)

  -- What follows a part that stands at a position.
  pub drop-past :
      (i : ℕ) (l xs rest : List A) → drop i l ≡ xs ++ rest → drop (i + length xs) l ≡ rest
  drop-past i l xs rest h = sym (drop-drop (length xs) i l) ∙ rw h (drop-append_self xs rest)

  pub past_inside :
      (i : ℕ) (l xs rest : List A) → i ≤ length l → drop i l ≡ xs ++ rest → i + length xs ≤ length l
  past_inside i l xs rest k h = omega (arith, ap length h, length-drop i l, length-append xs rest)

  pub keep-append : (p : A → Bool) (xs ys : List A) → keep p (xs ++ ys) ≡ keep p xs ++ keep p ys
  keep-append p [] ys = refl
  keep-append p (x ∷ xs) ys = ground (arith, keep-append p xs ys)

  pub drop-length : (xs : List A) → drop (length xs) xs ≡ []
  drop-length [] = refl
  drop-length (x ∷ xs) = drop-length xs

  pub keep-accept :
      (p : A → Bool) (x : A) (xs : List A) → p x ≡ true → keep p (x ∷ xs) ≡ x ∷ keep p xs
  keep-accept p x xs h = ground (arith, h)

  pub keep-reject : (p : A → Bool) (x : A) (xs : List A) → p x ≡ false → keep p (x ∷ xs) ≡ keep p xs
  keep-reject p x xs h = ground (arith, h)

  pub keep-none : (p : A → Bool) (xs : List A) → All (λ x. p x ≡ false) xs → keep p xs ≡ []
  keep-none p [] h = refl
  keep-none p (x ∷ xs) h = keep-reject p x xs h.0 ∙ keep-none p xs h.1

  pub keep_everything : (p : A → Bool) (xs : List A) → All (λ x. p x ≡ true) xs → keep p xs ≡ xs
  keep_everything p [] h = refl
  keep_everything p (x ∷ xs) h = keep-accept p x xs h.0 ∙ ap (λ l. x ∷ l) (keep_everything p xs h.1)

  -- A stricter filter behind a weaker one.
  pub keep-keep :
      (p q : A → Bool) (xs : List A)
      → ((x : A) → q x ≡ true → p x ≡ true)
      → keep q (keep p xs) ≡ keep q xs
  keep-keep p q [] h = refl
  keep-keep p q (x ∷ xs) h = elim (Bool-cases (p x)) [
    | inl e ↦ ap (keep q) (keep-accept p x xs e) ∙ elim (Bool-cases (q x)) [
      | inl a ↦
          keep-accept q x (keep p xs) a
          ∙ ap (λ l. x ∷ l) (keep-keep p q xs h)
          ∙ sym (keep-accept q x xs a)
      | inr a ↦ keep-reject q x (keep p xs) a ∙ keep-keep p q xs h ∙ sym (keep-reject q x xs a)
    ]
    | inr e ↦
        let a : q x ≡ false = ground (arith, h x) in
        ap (keep q) (keep-reject p x xs e) ∙ keep-keep p q xs h ∙ sym (keep-reject q x xs a)
  ]

  pub keep-All {κ} :
      {P : A → Type κ} (p : A → Bool) (xs : List A)
      → ((x : A) → p x ≡ true → P x)
      → All P (keep p xs)
  keep-All p [] h = tt
  keep-All p (x ∷ xs) h = elim (Bool-cases (p x)) [
    | inl e ↦ rw (keep-accept p x xs e) (h x e, keep-All p xs h)
    | inr e ↦ rw (keep-reject p x xs e) (keep-All p xs h)
  ]

  pub All-drop {κ} : (P : A → Type κ) (n : ℕ) (xs : List A) → All P xs → All P (drop n xs)
  All-drop P zero xs h = h
  All-drop P (suc n) [] h = tt
  All-drop P (suc n) (x ∷ xs) h = All-drop P n xs h.1

  pub All-map {κ} : (P Q : A → Type κ) (xs : List A) → ((x : A) → P x → Q x) → All P xs → All Q xs
  All-map P Q [] f h = tt
  All-map P Q (x ∷ xs) f h = (f x h.0, All-map P Q xs f h.1)

  pub All-both {κ} :
      (P Q : A → Type κ) (xs : List A) → All P xs → All Q xs → All (λ x. P x × Q x) xs
  All-both P Q [] h k = tt
  All-both P Q (x ∷ xs) h k = ((h.0, k.0), All-both P Q xs h.1 k.1)

  pub drop-past_end : (n : ℕ) (xs : List A) → length xs ≤ n → drop n xs ≡ []
  drop-past_end n [] h = drop-nil n
  drop-past_end zero (x ∷ xs) h = absurd (omega arith)
  drop-past_end (suc n) (x ∷ xs) h = drop-past_end n xs (omega arith)

pub length-map {ℓ κ} :
    {A : Type ℓ} {B : Type κ} (f : A → B) (xs : List A) → length (map f xs) ≡ length xs
length-map f [] = refl
length-map f (x ∷ xs) = ap suc (length-map f xs)
