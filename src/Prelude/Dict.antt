-- ===== src/Prelude/Dict.antt =====
-- Rust's `HashMap`: an association list with one entry for each key. Its order is that in which
-- `values()` gives the entries, which a program may not rely on.
use mathlib.Core.Path.{◌≡◌, sym, ap, subst}
use mathlib.Core.Bool.{Bool, true, false}
use mathlib.Core.List.{List, [], ◌∷◌, map}
use mathlib.Core.Logic.{inl, inr}
use mathlib.Core.Option.{Option, none, some, some-injective}
use native.Mathlib.Omega.{arith}
use qqflow_server.Prelude.Options.{unwrap_or}
use qqflow_server.Prelude.Lists.{All}
use qqflow_server.Prelude.Tests.{Bool-cases, if◌then◌else◌}

-- `PartialEq` of a type of keys.
pub record Eq {ℓ} (K : Type ℓ) : Type ℓ where
  pub test : K → K → Bool
  pub test_refl : (k : K) → test k k ≡ true
  pub test→eq : (j k : K) → test j k ≡ true → j ≡ k

module _ {ℓ} {K : Type ℓ} ⦃e : Eq K⦄ where
  pub test_sym : (j k : K) → e.test j k ≡ false → e.test k j ≡ false
  test_sym j k h = elim (Bool-cases (e.test k j)) [
    | inl same ↦
        let eq : k ≡ j = e.test→eq k j same in
        ground (arith, ap (λ x. e.test x k) eq, e.test_refl k)
    | inr other ↦ other
  ]

abbrev pub Dict {ℓ κ} : Type ℓ → Type κ → Type (ℓ ⊔ κ)
Dict K V = List (K × V)

module _ {ℓ κ} {K : Type ℓ} {V : Type κ} ⦃e : Eq K⦄ where
  abbrev pub get : K → Dict K V → Option V
  get k [] = none
  get k ((j, v) ∷ d) = elim (e.test j k) [ true ↦ some v | false ↦ get k d ]

  -- `entry(k).or_insert(new)`, changed by `f`.
  abbrev pub modify : K → V → (V → V) → Dict K V → Dict K V
  modify k new f [] = (k, f new) ∷ []
  modify k new f ((j, v) ∷ d) = elim (e.test j k) [
    | true ↦ (j, f v) ∷ d
    | false ↦ (j, v) ∷ modify k new f d
  ]

  abbrev pub insert : K → V → Dict K V → Dict K V
  insert k v = modify k v (λ _. v)

  abbrev pub contains_key : K → Dict K V → Bool
  contains_key k d = elim (get k d) [ none ↦ false | some _ ↦ true ]

  pub get-modify :
      (j k : K) (new : V) (f : V → V) (d : Dict K V)
      → get j (modify k new f d)
        ≡ (if e.test k j then some (f (unwrap_or new (get k d))) else get j d)
  get-modify j k new f [] = ground arith
  get-modify j k new f ((i, v) ∷ d) = elim (Bool-cases (e.test i k)) [
    | inl same ↦
        let eq : i ≡ k = e.test→eq i k same in ground (arith, same, ap (λ x. e.test x j) eq)
    | inr other ↦ elim (Bool-cases (e.test i j)) [
      | inl own ↦
          let eq : i ≡ j = e.test→eq i j own in
          let apart : e.test k j ≡ false = rw (sym eq) (test_sym i k other) in
          ground (arith, other, own, apart)
      | inr foreign ↦ ground (arith, other, foreign, get-modify j k new f d)
    ]
  ]

module _ {ℓ κ μ} {K : Type ℓ} {V : Type κ} ⦃e : Eq K⦄ (P : K → V → Type μ) where
  abbrev pub Entries : Dict K V → Type μ
  Entries = All (λ p. P p.0 p.1)

  pub Entries-modify :
      (k : K) (new : V) (f : V → V) (d : Dict K V)
      → P k (f new)
      → ((v : V) → P k v → P k (f v))
      → Entries d
      → Entries (modify k new f d)
  Entries-modify k new f [] base step h = (base, tt)
  Entries-modify k new f ((j, v) ∷ d) base step h = elim (Bool-cases (e.test j k)) [
    | inl same ↦
        let eq : j ≡ k = e.test→eq j k same in
        rw (modify, same)
          (subst (λ i. P i (f v)) (sym eq) (step v (subst (λ i. P i v) eq h.0)), h.1)
    | inr other ↦ rw (modify, other) (h.0, Entries-modify k new f d base step h.1)
  ]

  pub Entries-get : (k : K) (d : Dict K V) (v : V) → Entries d → get k d ≡ some v → P k v
  Entries-get k [] v h g = ground (arith, g)
  Entries-get k ((j, u) ∷ d) v h g = elim (Bool-cases (e.test j k)) [
    | inl same ↦
        let eq : j ≡ k = e.test→eq j k same in
        let val : u ≡ v = some-injective u v (rw (get, same) at g) in
        subst (λ i. P i v) eq (subst (P j) val h.0)
    | inr other ↦ Entries-get k d v h.1 (rw (get, other) at g)
  ]

  pub Entries-map_values :
      (f : V → V) (d : Dict K V)
      → ((k : K) (v : V) → P k v → P k (f v))
      → Entries d
      → Entries (map (λ p. (p.0, f p.1)) d)
  Entries-map_values f [] step h = tt
  Entries-map_values f ((k, v) ∷ d) step h = (step k v h.0, Entries-map_values f d step h.1)

abbrev pub values {ℓ κ} : {K : Type ℓ} {V : Type κ} → Dict K V → List V
values = map (λ p. p.1)

-- `values_mut()` with a change of each value.
abbrev pub map_values {ℓ κ} : {K : Type ℓ} {V : Type κ} → (V → V) → Dict K V → Dict K V
map_values f = map (λ p. (p.0, f p.1))
