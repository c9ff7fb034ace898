-- ===== src/Sync/History/Window.antt =====
-- The replay window: ids, bound and completeness of `HistoryBuf`.
use mathlib.Core.List.{append_assoc, append-nil}
use mathlib.Core.Path.{ap₂}
use qqflow_server.Prelude.{
  ℕ, zero, suc, ◌+◌, ◌-◌, ◌≤◌, ◌≡◌, refl, ap, ◌∙◌, inl, inr, ltb, Bool-cases, List, [], ◌∷◌, ◌++◌,
  arith, length, length-append, drop, length-drop, drop-drop,
}
use qqflow_server.Sync.Events.{Event}
use qqflow_server.Sync.History.{
  HistoryItem, HistoryBuf, max_items, pop_front_to_max, append, clear_items,
}

-- The ids after `k`, with no gap.
abbrev pub Numbered : ℕ → List HistoryItem → Type 0
Numbered k [] = Unit
Numbered k (x ∷ xs) = (x.id ≡ k + 1) × Numbered (k + 1) xs

-- The buffer holds the last events, at most 1000, under consecutive ids up to `last_id`.
pub record IsWindow (h : HistoryBuf) : Type 0 where
  pub bounded : length h.items ≤ max_items
  pub counted : length h.items ≤ h.last_id
  pub numbered : Numbered (h.last_id - length h.items) h.items

pop_front_to_max-drop :
    (xs : List HistoryItem) → pop_front_to_max xs ≡ drop (length xs - max_items) xs
unfolding pop_front_to_max
pop_front_to_max-drop [] = refl
pop_front_to_max-drop (x ∷ xs) = elim (Bool-cases (ltb max_items (length (x ∷ xs)))) [
  | inl big ↦
      let e : suc (length xs) - max_items ≡ suc (length xs - max_items) = ground arith in
      rw (big, e) (pop_front_to_max-drop xs)
  | inr small ↦ let e : suc (length xs) - max_items ≡ 0 = ground arith in rw (small, e) refl
]

pub Numbered-drop :
    (d k : ℕ) (xs : List HistoryItem) → d ≤ length xs → Numbered k xs → Numbered (k + d) (drop d xs)
Numbered-drop zero k xs h n = let e : k + zero ≡ k = omega arith in rw e n
Numbered-drop (suc d) k [] h n = absurd (omega arith)
Numbered-drop (suc d) k (x ∷ xs) h n =
    let e : k + suc d ≡ k + 1 + d = omega arith in
    rw e (Numbered-drop d (k + 1) xs (omega arith) n.1)

Numbered-snoc :
    (k : ℕ) (xs : List HistoryItem) (x : HistoryItem)
    → Numbered k xs
    → x.id ≡ k + length xs + 1
    → Numbered k (xs ++ x ∷ [])
Numbered-snoc k [] x n e = (omega arith, tt)
Numbered-snoc k (y ∷ xs) x n e = (n.0, Numbered-snoc (k + 1) xs x n.1 (omega arith))

append-items :
    (e : Event) (now : ℕ) (h : HistoryBuf)
    → (append e now h).0.items
      ≡ drop
          (length (h.items ++ record { id = h.last_id + 1; at = now; event = e } ∷ []) - max_items)
          (h.items ++ record { id = h.last_id + 1; at = now; event = e } ∷ [])
unfolding append
append-items e now h = pop_front_to_max-drop _

append-last_id : (e : Event) (now : ℕ) (h : HistoryBuf) → (append e now h).0.last_id ≡ h.last_id + 1
unfolding append
append-last_id e now h = refl

-- `append` keeps the window: at most 1000 items, no more than were ever appended, under consecutive
-- ids that end at `last_id`.
pub append-IsWindow :
    (e : Event) (now : ℕ) (h : HistoryBuf) → IsWindow h → IsWindow (append e now h).0
unfolding append
append-IsWindow e now h w =
    let x : HistoryItem = record { id = h.last_id + 1; at = now; event = e } in
    let all : List HistoryItem = h.items ++ x ∷ [] in
    let len : length all ≡ length h.items + 1 = length-append h.items (x ∷ []) in
    let d : ℕ = length all - max_items in
    let base : ℕ = h.last_id - length h.items in
    let start : h.last_id + 1 - length (drop d all) ≡ base + d =
      omega (arith, length-drop d all, w.counted) in
    rw (pop_front_to_max-drop all) (record {
      bounded = rw length-drop (omega (arith, w.bounded));
      counted = rw length-drop (omega (arith, w.counted));
      numbered = rw start (
          Numbered-drop d base all (omega arith)
            (Numbered-snoc base h.items x w.numbered (omega (arith, w.counted))));
    })

pub clear_items-IsWindow : (h : HistoryBuf) → IsWindow h → IsWindow (clear_items h)
unfolding clear_items
clear_items-IsWindow h w = record { bounded = omega arith; counted = omega arith; numbered = tt }

-- Several events in turn, each with its instant.
unfoldable pub append_all : List (ℕ × Event) → HistoryBuf → HistoryBuf
append_all [] h = h
append_all ((now, e) ∷ es) h = append_all es (append e now h).0

-- The items of events that are numbered from `k + 1` on.
abbrev pub items_of : ℕ → List (ℕ × Event) → List HistoryItem
items_of k [] = []
items_of k ((now, e) ∷ es) = record { id = k + 1; at = now; event = e } ∷ items_of (k + 1) es

length-items_of : (k : ℕ) (es : List (ℕ × Event)) → length (items_of k es) ≡ length es
length-items_of k [] = refl
length-items_of k ((now, e) ∷ es) = ap suc (length-items_of (k + 1) es)

pub drop-append_le :
    {A : Type 0} (d : ℕ) (xs ys : List A) → d ≤ length xs → drop d xs ++ ys ≡ drop d (xs ++ ys)
drop-append_le zero xs ys h = refl
drop-append_le (suc d) [] ys h = absurd (omega arith)
drop-append_le (suc d) (x ∷ xs) ys h = drop-append_le d xs ys (omega arith)

pub append_all-items :
    (es : List (ℕ × Event)) (h : HistoryBuf)
    → length h.items ≤ max_items
    → (append_all es h).items
      ≡ drop (length h.items + length es - max_items) (h.items ++ items_of h.last_id es)
unfolding append_all
append_all-items [] h fits =
    let none_over : length h.items + 0 - max_items ≡ 0 = omega arith in rw (none_over, append-nil)
append_all-items ((now, e) ∷ es) h fits =
    let x : HistoryItem = record { id = h.last_id + 1; at = now; event = e } in
    let all : List HistoryItem = h.items ++ x ∷ [] in
    let a : ℕ = length all - max_items in
    let rest : List HistoryItem = items_of (h.last_id + 1) es in
    let n : ℕ = length (drop a all) + length es - max_items in
    let len : length all ≡ length h.items + 1 = length-append h.items (x ∷ []) in
    let cut : length (drop a all) ≡ length all - a = length-drop a all in
    let first : (append e now h).0.items ≡ drop a all = append-items e now h in
    append_all-items es (append e now h).0 (omega (arith, ap length first))
    ∙ ap₂ (λ l (k : ℕ). drop (length l + length es - max_items) (l ++ items_of k es)) first
        (append-last_id e now h)
    ∙ ap (drop n) (drop-append_le a all rest (omega arith))
    ∙ drop-drop n a (all ++ rest)
    ∙ ap₂ drop (omega arith) (append_assoc h.items (x ∷ []) rest)

pub append_all-IsWindow :
    (es : List (ℕ × Event)) (h : HistoryBuf) → IsWindow h → IsWindow (append_all es h)
unfolding append_all
append_all-IsWindow [] h w = w
append_all-IsWindow ((now, e) ∷ es) h w =
    append_all-IsWindow es (append e now h).0 (append-IsWindow e now h w)

pub last_id-append_all :
    (es : List (ℕ × Event)) (h : HistoryBuf) → (append_all es h).last_id ≡ h.last_id + length es
unfolding append_all append
last_id-append_all [] h = omega arith
last_id-append_all ((now, e) ∷ es) h = omega (arith, last_id-append_all es (append e now h).0)
