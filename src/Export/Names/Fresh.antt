-- ===== src/Export/Names/Fresh.antt =====
-- export.rs: `file_name_for` ends, with a name that was free.
use qqflow_server.Prelude.{
  ℕ, zero, suc, ◌+◌, ◌≤◌, ◌<◌, ◌≡◌, refl, sym, ap, ◌∙◌, Bool, true, false, not, Bool-cases, inl,
  inr, List, [], ◌∷◌, any, all, keep, length, arith,
}
use qqflow_server.Text.{Text, utf8, text_eq, text_eq→eq, text_eq_sym}
use qqflow_server.Text.Chars.{is_ascii}
use qqflow_server.Text.Value.{limit}
use qqflow_server.Types.{to_ascii_lowercase}
use qqflow_server.Export.Names.{SessionTarget, stem_of, add_to, name_loop, file_name_for}
use qqflow_server.Export.Names.Candidates.{
  candidate, candidate-is_ascii, candidate_apart, stem_of-is_ascii,
}

abbrev pub is_in : Text → List Text → Bool
is_in k s = any (text_eq k) s

-- The members other than `k`.
abbrev without : Text → List Text → List Text
without k = keep (λ x. not (text_eq k x))

length-without : (k : Text) (s : List Text) → length (without k s) ≤ length s
length-without k [] = omega arith
length-without k (x ∷ s) = elim (Bool-cases (text_eq k x)) [
  | inl e ↦ rw (keep, e) (omega (arith, length-without k s))
  | inr e ↦ rw (keep, e) (omega (arith, length-without k s))
]

length-without_lt : (k : Text) (s : List Text) → is_in k s ≡ true → length (without k s) < length s
length-without_lt k [] h = absurd (cc h)
length-without_lt k (x ∷ s) h = elim (Bool-cases (text_eq k x)) [
  | inl e ↦ rw (keep, e) (omega (arith, length-without k s))
  | inr e ↦
      let tail : is_in k s ≡ true = ground (arith, h, e) in
      rw (keep, e) (omega (arith, length-without_lt k s tail))
]

is_in-without :
    (j k : Text) (s : List Text)
    → text_eq k j ≡ false
    → is_in j s ≡ true
    → is_in j (without k s) ≡ true
is_in-without j k [] other h = h
is_in-without j k (x ∷ s) other h = elim (Bool-cases (text_eq k x)) [
  | inl e ↦
      let step : text_eq j x ≡ false =
        text_eq_sym x j (ap (λ y. text_eq y j) (sym (text_eq→eq k x e)) ∙ other) in
      rw (keep, e) (is_in-without j k s other (ground (arith, h, step)))
  | inr e ↦ elim (Bool-cases (text_eq j x)) [
    | inl own ↦ rw (keep, e) (ground (arith, own))
    | inr not_here ↦
        let tail = is_in-without j k s other (ground (arith, h, not_here)) in
        rw (keep, e) (ground (arith, tail))
  ]
]

-- What the loop gives: a name that was free and is taken now.
pub record IsFresh (lower : Text → Text) (taken : List Text) (r : Text × List Text) : Type 0 where
  pub free : is_in (lower r.0) taken ≡ false
  pub noted : r.1 ≡ lower r.0 ∷ taken

module _ (lower : Text → Text) (stem : Text) (taken : List Text) where
  abbrev folded : ℕ → Text
  folded j = lower (candidate stem j)

  -- The members that the loop can still meet are in `pool`.
  name_loop-IsFresh :
      (bound : ℕ)
      → ((j k : ℕ) → j < k → k < bound → text_eq (folded j) (folded k) ≡ false)
      → (fuel : ℕ) (pool : List Text) (j : ℕ) → j + fuel ≤ bound
      → ((k : ℕ) → j ≤ k → k < bound → is_in (folded k) taken ≡ true → is_in (folded k) pool ≡ true)
      → length pool < fuel
      → IsFresh lower taken (name_loop lower fuel taken stem (candidate stem j) (j + 2))
  unfolding name_loop
  name_loop-IsFresh bound apart zero pool j room covered few = absurd (omega (arith, few))
  name_loop-IsFresh bound apart (suc fuel) pool j room covered few =
      elim (Bool-cases (is_in (folded j) taken)) [
        | inr e ↦ rw (name_loop, e) (record { free = e; noted = refl })
        | inl e ↦
            let here = covered j (omega arith) (omega (arith, room)) e in
            let next : suc j + 2 ≡ j + 2 + 1 = omega arith in
            let rest =
              name_loop-IsFresh bound apart fuel (without (folded j) pool) (suc j)
                (omega (arith, room))
                (λ k past inside there.
                  is_in-without (folded k) (folded j) pool (apart j k (omega (arith, past)) inside)
                    (covered k (omega (arith, past)) inside there))
                (omega (arith, few, length-without_lt (folded j) pool here)) in
            rw (name_loop, e) (rw next at rest)
      ]

length-add_to : (k : Text) (s : List Text) → length (add_to k s) ≤ length s + 1
length-add_to k s = ground arith

-- Where `to_lowercase` is that of ASCII on ASCII, and the names taken are fewer than 32 bits count,
-- the loop of `file_name_for` ends with a name that none of them is in any case, nor `index`, and
-- adds just this name to them.
pub file_name_for-IsFresh :
    (lower : Text → Text)
    → ((s : Text) → all is_ascii s ≡ true → lower s ≡ to_ascii_lowercase s)
    → (target : SessionTarget) (taken : List Text) → length taken + 4 < limit
    → IsFresh lower (add_to (utf8 "index") taken) (file_name_for lower target taken)
unfolding file_name_for
file_name_for-IsFresh lower law target taken few =
    let stem = stem_of target in
    let all_taken = add_to (utf8 "index") taken in
    let size = length-add_to (utf8 "index") taken in
    let fold =
      λ (j : ℕ). law (candidate stem j) (candidate-is_ascii stem j (stem_of-is_ascii target)) in
    name_loop-IsFresh lower stem all_taken (suc (length all_taken))
      (λ j k less inside.
        ap (λ a. text_eq a (lower (candidate stem k))) (fold j)
        ∙ ap (text_eq (to_ascii_lowercase (candidate stem j))) (fold k)
        ∙ candidate_apart stem j k less (omega (arith, inside, size, few)))
      (suc (length all_taken)) all_taken 0 (omega arith) (λ k past inside there. there)
      (omega arith)
