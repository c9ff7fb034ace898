-- ===== src/Parser/Heuristic/Budget.antt =====
-- parser/mod.rs: the budget of `extract_text` never cuts a scan off.
use qqflow_server.Prelude.{
  ℕ, zero, suc, ◌+◌, ◌*◌, ◌≤◌, ◌≡◌, refl, ap, ◌∙◌, Bool, true, false, Bool-cases, inl, inr, Option,
  none, some, List, [], ◌∷◌, length, arith,
}
use mathlib.Core.Path.{ap₂}
use qqflow_server.Text.{Text, utf8}
use qqflow_server.Text.Lossy.{from_utf8_lossy, length-from_utf8_lossy}
use qqflow_server.Types.{MsgType, ParsedMessage, simple}
use qqflow_server.Parser.Heuristic.{
  run, scan_loop, next_from, is_ascii, is_common_han, is_run_char, longer_run, is_printable,
  longer_ascii, scan_from, scan_ascii, extract_run,
}

-- The characters of a run, and what follows it, without a budget.
abbrev pub span : (ℕ → Bool) → List ℕ → List ℕ × List ℕ
span ok [] = ([], [])
span ok (c ∷ cs) = elim (ok c) [
  | false ↦ ([], c ∷ cs)
  | true ↦ let rest = span ok cs in (c ∷ rest.0, rest.1)
]

abbrev pub after_span : List ℕ × List ℕ → List ℕ
after_span ([], []) = []
after_span ([], c ∷ cs) = cs
after_span (t ∷ ts, rest) = rest

length-span :
    (ok : ℕ → Bool) (cs : List ℕ) → length (span ok cs).0 + length (span ok cs).1 ≡ length cs
length-span ok [] = omega arith
length-span ok (c ∷ cs) = elim (Bool-cases (ok c)) [
  | inl e ↦ rw (span, e) (omega (arith, length-span ok cs))
  | inr e ↦ rw (span, e) (omega arith)
]

-- A run whose budget covers the characters is the span, and uses one unit for each and one more.
record WithinSpan (ok : ℕ → Bool) (budget : ℕ) (cs : List ℕ) : Type 0 where
  taken : (run ok budget cs).0 ≡ (span ok cs).0
  rest : (run ok budget cs).1 ≡ (span ok cs).1
  left : budget ≤ (run ok budget cs).2 + length (span ok cs).0 + 1

run-WithinSpan :
    (ok : ℕ → Bool) (budget : ℕ) (cs : List ℕ) → length cs ≤ budget → WithinSpan ok budget cs
unfolding run
run-WithinSpan ok budget [] h = record { taken = refl; rest = refl; left = omega arith }
run-WithinSpan ok zero (c ∷ cs) h = absurd (omega arith)
run-WithinSpan ok (suc budget) (c ∷ cs) h = elim (Bool-cases (ok c)) [
  | inr e ↦ record {
    taken = rw (run, span, e) refl;
    rest = rw (run, span, e) refl;
    left = rw (run, span, e) (omega arith);
  }
  | inl e ↦
      let more = run-WithinSpan ok budget cs (omega (arith, h)) in
      record {
        taken = rw (run, span, e) (ap (λ ts. c ∷ ts) more.taken);
        rest = rw (run, span, e) more.rest;
        left = rw (run, span, e) (omega (arith, more.left));
      }
]

length-after_span :
    (taken rest : List ℕ) (n : ℕ)
    → length taken + length rest ≡ suc n
    → 3 * length (after_span (taken, rest)) + length taken ≤ 3 * n + 1
length-after_span [] [] n h = omega arith
length-after_span [] (c ∷ cs) n h = omega (arith, h)
length-after_span (t ∷ ts) rest n h = omega (arith, h)

next_from-after_span :
    (found : List ℕ × List ℕ × ℕ) → next_from found ≡ after_span (found.0, found.1)
next_from-after_span ([], [], left) = refl
next_from-after_span ([], c ∷ cs, left) = refl
next_from-after_span (t ∷ ts, rest, left) = refl

module _ (starts ok : ℕ → Bool) (better : List ℕ → Option Text → Option Text) where
  -- The outer loop without a budget.
  unfoldable pub free_scan : ℕ → Option Text → List ℕ → Option Text
  free_scan zero best cs = best
  free_scan (suc rounds) best [] = best
  free_scan (suc rounds) best (c ∷ cs) = elim (starts c) [
    | false ↦ free_scan rounds best cs
    | true ↦
        let found = span ok (c ∷ cs) in free_scan rounds (better found.0 best) (after_span found)
  ]

  -- A scan whose budget is three times the characters is the free one, and uses no more than that.
  record IsUnbounded (rounds budget : ℕ) (best : Option Text) (cs : List ℕ) : Type 0 where
    result : (scan_loop starts ok better rounds budget best cs).0 ≡ free_scan rounds best cs
    left : budget ≤ (scan_loop starts ok better rounds budget best cs).1 + 3 * length cs

  scan_loop-IsUnbounded :
      (rounds budget : ℕ) (best : Option Text) (cs : List ℕ)
      → 3 * length cs ≤ budget
      → IsUnbounded rounds budget best cs
  unfolding scan_loop free_scan
  scan_loop-IsUnbounded zero budget best cs h = record { result = refl; left = omega arith }
  scan_loop-IsUnbounded (suc rounds) budget best [] h = record { result = refl; left = omega arith }
  scan_loop-IsUnbounded (suc rounds) zero best (c ∷ cs) h = absurd (omega (arith, h))
  scan_loop-IsUnbounded (suc rounds) (suc budget) best (c ∷ cs) h = elim (Bool-cases (starts c)) [
    | inr e ↦
        let more = scan_loop-IsUnbounded rounds budget best cs (omega (arith, h)) in
        record {
          result = rw (scan_loop, free_scan, e) more.result;
          left = rw (scan_loop, e) (omega (arith, more.left));
        }
    | inl e ↦
        let found = run ok budget (c ∷ cs) in
        let r = run-WithinSpan ok budget (c ∷ cs) (omega (arith, h)) in
        let taken = (span ok (c ∷ cs)).0 in
        let next = after_span (span ok (c ∷ cs)) in
        let size =
          length-after_span taken (span ok (c ∷ cs)).1 (length cs) (length-span ok (c ∷ cs)) in
        let same : next_from found ≡ next =
          next_from-after_span found ∙ ap₂ (λ ts q. after_span (ts, q)) r.taken r.rest in
        let more =
          scan_loop-IsUnbounded rounds found.2 (better taken best) next
            (omega (arith, h, r.left, size)) in
        let again =
          ap₂ (λ ts n. scan_loop starts ok better rounds found.2 (better ts best) n) r.taken same in
        record {
          result = rw (scan_loop, free_scan, e) (ap (λ x. x.0) again ∙ more.result);
          left = rw (scan_loop, e) (omega (arith, h, r.left, size, more.left, ap (λ x. x.1) again));
        }
  ]

abbrev pub free_han : List ℕ → Option Text
free_han blob =
    let cs = from_utf8_lossy blob in
    free_scan is_common_han is_run_char longer_run (length cs) none cs

abbrev pub free_ascii : List ℕ → Option Text
free_ascii blob =
    let cs = from_utf8_lossy blob in
    free_scan is_ascii is_printable longer_ascii (length cs) none cs

-- The message of a Han run if there is one, else of an ASCII run, else the placeholder.
abbrev pub run_message : Option Text → Option Text → ParsedMessage
run_message han ascii = elim han [
  | some text ↦ simple MsgType.text text
  | none ↦ elim ascii [
    | some text ↦ simple MsgType.text text
    | none ↦ simple MsgType.other (utf8 "[无法解析]")
  ]
]

-- The two scans of `extract_text` share a budget of 50 units for each byte and give what they give
-- without a budget.
pub extract_run-free :
    (blob : List ℕ) → extract_run blob ≡ run_message (free_han blob) (free_ascii blob)
unfolding extract_run scan_from scan_ascii
extract_run-free blob =
    let cs = from_utf8_lossy blob in
    let few = length-from_utf8_lossy blob in
    let han =
      scan_loop-IsUnbounded is_common_han is_run_char longer_run (length cs) (length blob * 50) none
        cs (omega (arith, few)) in
    let ascii =
      scan_loop-IsUnbounded is_ascii is_printable longer_ascii (length cs)
        (scan_from blob (length blob * 50)).1 none cs (omega (arith, few, han.left)) in
    ap₂ run_message han.result ascii.result
