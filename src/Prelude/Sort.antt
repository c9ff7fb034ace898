-- ===== src/Prelude/Sort.antt =====
-- Rust's `sort_by` with a Boolean order: stable insertion sort, and what a sorted result is.
use mathlib.Core.Path.{◌≡◌, ap₂, ◌≡◌, refl}
use mathlib.Core.Bool.{Bool, true, false, Bool-set}
use mathlib.Core.List.{
  List, [], ◌∷◌, Perm, Mem, not-mem-nil, mem-cons_self, mem-cons_of_mem, eq-or-mem_of_mem-cons,
}
use mathlib.Core.Logic.Or
use mathlib.Core.List.Perm
use mathlib.Core.Logic.{inl, inr}
use native.Mathlib.Omega.{arith}
use qqflow_server.Prelude.Tests.{Bool-cases, if◌then◌else◌}
use qqflow_server.Prelude.Lists.{All, All-map, keep, length}

module _ {ℓ} {A : Type ℓ} (le : A → A → Bool) where
  unfoldable pub insert_by : A → List A → List A
  insert_by x [] = x ∷ []
  insert_by x (y ∷ ys) = let rest = insert_by x ys in if le x y then x ∷ y ∷ ys else y ∷ rest

  unfoldable pub sort_by : List A → List A
  sort_by [] = []
  sort_by (x ∷ xs) = insert_by x (sort_by xs)

  -- Every element is below those behind it.
  abbrev pub IsSorted : List A → Type 0
  IsSorted [] = Unit
  IsSorted (x ∷ xs) = All (λ y. le x y ≡ true) xs × IsSorted xs

  pub insert_by-perm : (x : A) (xs : List A) → Perm (insert_by x xs) (x ∷ xs)
  unfolding insert_by
  insert_by-perm x [] = Perm.rfl
  insert_by-perm x (y ∷ ys) = elim (Bool-cases (le x y)) [
    | inl e ↦ rw e Perm.rfl
    | inr e ↦ rw e (Perm.trans (Perm.cons y (insert_by-perm x ys)) (Perm.swap x y ys))
  ]

  pub sort_by-perm : (xs : List A) → Perm (sort_by xs) xs
  unfolding sort_by
  sort_by-perm [] = Perm.rfl
  sort_by-perm (x ∷ xs) = Perm.trans (insert_by-perm x (sort_by xs)) (Perm.cons x (sort_by-perm xs))

  All-inserted {κ} :
      (P : A → Type κ) (x : A) (xs : List A) → P x → All P xs → All P (insert_by x xs)
  unfolding insert_by
  All-inserted P x [] h a = (h, tt)
  All-inserted P x (y ∷ ys) h a = elim (Bool-cases (le x y)) [
    | inl e ↦ rw e (h, a)
    | inr e ↦ rw e (a.0, All-inserted P x ys h a.1)
  ]

  pub All-sort_by {κ} : (P : A → Type κ) (xs : List A) → All P xs → All P (sort_by xs)
  unfolding sort_by
  All-sort_by P [] a = tt
  All-sort_by P (x ∷ xs) a = All-inserted P x (sort_by xs) a.0 (All-sort_by P xs a.1)

  length-keep-insert_by :
      (p : A → Bool) (x : A) (xs : List A)
      → length (keep p (insert_by x xs)) ≡ length (keep p (x ∷ xs))
  unfolding insert_by
  length-keep-insert_by p x [] = refl
  length-keep-insert_by p x (y ∷ ys) = ground (arith, length-keep-insert_by p x ys)

  -- A test accepts as many elements after sorting as before.
  pub length-keep-sort_by :
      (p : A → Bool) (xs : List A) → length (keep p (sort_by xs)) ≡ length (keep p xs)
  unfolding sort_by
  length-keep-sort_by p [] = refl
  length-keep-sort_by p (x ∷ xs) =
      ground (arith, length-keep-insert_by p x (sort_by xs), length-keep-sort_by p xs)

  -- A total and transitive order.
  pub record IsOrder : Type ℓ where
    pub total : (x y : A) → le x y ≡ false → le y x ≡ true
    pub trans : (x y z : A) → le x y ≡ true → le y z ≡ true → le x z ≡ true

  module _ (o : IsOrder) where
    insert_by-IsSorted : (x : A) (xs : List A) → IsSorted xs → IsSorted (insert_by x xs)
    unfolding insert_by
    insert_by-IsSorted x [] s = (tt, tt)
    insert_by-IsSorted x (y ∷ ys) s = elim (Bool-cases (le x y)) [
      | inl e ↦ rw e ((e, All-map _ _ ys (λ z h. o.trans x y z e h) s.0), s)
      | inr e ↦
          rw e (
            All-inserted (λ z. le y z ≡ true) x ys (o.total x y e) s.0,
            insert_by-IsSorted x ys s.1,
          )
    ]

    pub sort_by-IsSorted : (xs : List A) → IsSorted (sort_by xs)
    unfolding sort_by
    sort_by-IsSorted [] = tt
    sort_by-IsSorted (x ∷ xs) = insert_by-IsSorted x (sort_by xs) (sort_by-IsSorted xs)

-- A list has one sorted permutation, if no two of its elements are equivalent.
module _ {ℓ} {A : Type ℓ} (le : A → A → Bool) where
  test_prop : (x y : A) → IsProp (le x y ≡ true)
  test_prop x y = Bool-set (le x y) true

  All-of_mem :
      (x : A) (xs : List A) → All (λ y. le x y ≡ true) xs → (z : A) → Mem z xs → le x z ≡ true
  All-of_mem x [] a z m = absurd (not-mem-nil m)
  All-of_mem x (y ∷ ys) a z m =
      Or.elim (test_prop x z) (eq-or-mem_of_mem-cons m) (λ e. rw e a.0) (All-of_mem x ys a.1 z)

  -- No two different elements are below each other.
  abbrev pub IsApart : List A → Type ℓ
  IsApart l = (x y : A) → Mem x l → Mem y l → le x y ≡ true → le y x ≡ true → x ≡ y

  module _ (o : IsOrder le) where
    le_refl : (x : A) → le x x ≡ true
    le_refl x = elim (Bool-cases (le x x)) [ inl e ↦ e | inr e ↦ o.total x x e ]

    heads_le : (a b : A) (l r : List A) → IsSorted le (a ∷ l) → Perm (b ∷ r) (a ∷ l) → le a b ≡ true
    heads_le a b l r s p =
        All-of_mem a (a ∷ l) (le_refl a, s.0) b ((Perm.mem_iff p).0 mem-cons_self)

    pub IsSorted-eq_of_perm :
        (l r : List A) → IsApart l → IsSorted le l → IsSorted le r → Perm l r → l ≡ r
    IsSorted-eq_of_perm [] r apart sl sr p = Perm.nil-eq p
    IsSorted-eq_of_perm (a ∷ l) [] apart sl sr p = Perm.eq-nil p
    IsSorted-eq_of_perm (a ∷ l) (b ∷ r) apart sl sr p =
        let ab : le a b ≡ true = heads_le a b l r sl (Perm.symm p) in
        let ba : le b a ≡ true = heads_le b a r l sr p in
        let heads : a ≡ b =
          apart a b mem-cons_self ((Perm.mem_iff (Perm.symm p)).0 mem-cons_self) ab ba in
        let tails = Perm.cons_inv (Perm.trans p (Perm.symm (Perm.cons' heads Perm.rfl))) in
        ap₂ ◌∷◌ heads (
          IsSorted-eq_of_perm l r
            (λ x y hx hy. apart x y (mem-cons_of_mem a hx) (mem-cons_of_mem a hy)) sl.1 sr.1 tails)

    -- Sorting forgets the order of such a list.
    pub sort_by-perm_eq : (l r : List A) → IsApart l → Perm l r → sort_by le l ≡ sort_by le r
    sort_by-perm_eq l r apart p =
        let pl = sort_by-perm le l in
        IsSorted-eq_of_perm (sort_by le l) (sort_by le r)
          (λ x y hx hy. apart x y ((Perm.mem_iff pl).0 hx) ((Perm.mem_iff pl).0 hy))
          (sort_by-IsSorted le o l) (sort_by-IsSorted le o r)
          (Perm.trans pl (Perm.trans p (Perm.symm (sort_by-perm le r))))
