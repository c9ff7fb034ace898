-- ===== src/Parser/Heuristic/Json.antt =====
-- parser/mod.rs, extract_json_field: the value up to the closing quote.
use qqflow_server.Prelude.{
  ℕ, ◌≡◌, refl, ap, true, false, ◌||◌, Bool-cases, inl, inr, List, [], ◌∷◌, ◌++◌, arith, ◌==◌,
}
use qqflow_server.Parser.Heuristic.{json_value}

-- A JSON string with a backslash before each quote and each backslash.
abbrev pub escape : List ℕ → List ℕ
escape [] = []
escape (c ∷ cs) = elim (c == b'\\' || c == b'"') [
  | true ↦ b'\\' ∷ c ∷ escape cs
  | false ↦ c ∷ escape cs
]

-- The loop of `extract_json_field` gives back a value whose quotes and backslashes are escaped, up
-- to the quote that closes it, whatever follows.
pub json_value-escape : (s rest : List ℕ) → json_value false (escape s ++ b'"' ∷ rest) ≡ s
unfolding json_value
json_value-escape [] rest = refl
json_value-escape (c ∷ s) rest = elim (Bool-cases (c == b'\\' || c == b'"')) [
  | inl e ↦ rw (escape, e) (ap (λ cs. c ∷ cs) (json_value-escape s rest))
  | inr e ↦
      rw (escape, e)
        (let slash : (c == b'\\') ≡ false = ground (arith, e) in
          let quote : (c == b'"') ≡ false = ground (arith, e) in
          rw (json_value, slash) (rw quote (ap (λ cs. c ∷ cs) (json_value-escape s rest))))
]
