-- ===== src/Server/Pull/Pages.antt =====
-- A page of the Pull protocol ends where a second ends.
use qqflow_server.Prelude.{
  ℕ, ◌+◌, ◌≡◌, refl, ap, Bool, true, false, Bool-cases, inl, inr, Option, some, List, [], ◌∷◌, ◌++◌,
  keep, leb, ◌&&◌, All, length, drop, arith, keep-accept, keep-reject,
}
use qqflow_server.Prelude.Int.{ℤ, ltb_ℤ, ◌≤ℤ◌}
use qqflow_server.Types.{MessageRecord}
use qqflow_server.Prelude.Sort.{insert_by, sort_by}
use qqflow_server.Store.{key_leb, sort_messages}
use qqflow_server.Server.Pull.{is_after, is_until, filtered, is_new_second, page_loop, last_ts}

-- The seconds do not fall, from `lo` on.
abbrev pub Rising : ℤ → List MessageRecord → Type 0
Rising lo [] = Unit
Rising lo (m ∷ ms) = (lo ≤ℤ m.ts) × Rising m.ts ms

abbrev pub IsAfter : ℤ → MessageRecord → Type 0
IsAfter t m = ltb_ℤ t m.ts ≡ true

abbrev pub IsUpTo : ℤ → MessageRecord → Type 0
IsUpTo t m = ltb_ℤ t m.ts ≡ false

Rising-lower : (a b : ℤ) (ms : List MessageRecord) → a ≤ℤ b → Rising b ms → Rising a ms
Rising-lower a b [] h r = tt
Rising-lower a b (m ∷ ms) h r = (omega (arith, h, r.0), r.1)

Rising-IsAfter :
    (a b : ℤ) (ms : List MessageRecord) → ltb_ℤ a b ≡ true → Rising b ms → All (IsAfter a) ms
Rising-IsAfter a b [] h r = tt
Rising-IsAfter a b (m ∷ ms) h r =
    let next : ltb_ℤ a m.ts ≡ true = ground (arith, h, r.0) in
    (next, Rising-IsAfter a m.ts ms next r.1)

insert_by-Rising :
    (lo : ℤ) (m : MessageRecord) (ms : List MessageRecord)
    → lo ≤ℤ m.ts
    → Rising lo ms
    → Rising lo (insert_by key_leb m ms)
unfolding insert_by
insert_by-Rising lo m [] h r = (h, tt)
insert_by-Rising lo m (x ∷ xs) h r = elim (Bool-cases (key_leb m x)) [
  | inl e ↦ rw e (h, (ground (arith, e), r.1))
  | inr e ↦ rw e (r.0, insert_by-Rising x.ts m xs (ground (arith, e)) r.1)
]

Sorted : List MessageRecord → Type 0
Sorted [] = Unit
Sorted (m ∷ ms) = Rising m.ts ms

Rising-Sorted : (lo : ℤ) (ms : List MessageRecord) → Rising lo ms → Sorted ms
unfolding Sorted
Rising-Sorted lo [] r = tt
Rising-Sorted lo (m ∷ ms) r = r.1

insert_by-Sorted :
    (m : MessageRecord) (ms : List MessageRecord) → Sorted ms → Sorted (insert_by key_leb m ms)
unfolding insert_by Sorted
insert_by-Sorted m [] r = tt
insert_by-Sorted m (x ∷ xs) r = elim (Bool-cases (key_leb m x)) [
  | inl e ↦ rw e (ground (arith, e), r)
  | inr e ↦ rw e (insert_by-Rising x.ts m xs (ground (arith, e)) r)
]

sort_messages-Sorted : (ms : List MessageRecord) → Sorted (sort_messages ms)
unfolding sort_messages sort_by Sorted
sort_messages-Sorted [] = tt
sort_messages-Sorted (m ∷ ms) = insert_by-Sorted m (sort_messages ms) (sort_messages-Sorted ms)

keep-Rising :
    (p : MessageRecord → Bool) (lo : ℤ) (ms : List MessageRecord)
    → Rising lo ms
    → Rising lo (keep p ms)
keep-Rising p lo [] r = tt
keep-Rising p lo (m ∷ ms) r = elim (Bool-cases (p m)) [
  | inl e ↦ rw (keep-accept p m ms e) (r.0, keep-Rising p m.ts ms r.1)
  | inr e ↦ rw (keep-reject p m ms e) (keep-Rising p lo ms (Rising-lower lo m.ts ms r.0 r.1))
]

keep-after :
    (s : ℤ) (p : MessageRecord → Bool) (ms : List MessageRecord)
    → ((m : MessageRecord) → p m ≡ true → ltb_ℤ s m.ts ≡ true)
    → Sorted ms
    → Rising s (keep p ms)
unfolding Sorted
keep-after s p [] h r = tt
keep-after s p (m ∷ ms) h r = elim (Bool-cases (p m)) [
  | inl e ↦ rw (keep-accept p m ms e) (ground (arith, h m e), keep-Rising p m.ts ms r)
  | inr e ↦ rw (keep-reject p m ms e) (keep-after s p ms h (Rising-Sorted m.ts ms r))
]

-- The messages after `s` come with rising seconds.
pub filtered-Rising :
    (s : ℤ) (end : Option ℤ) (msgs : List MessageRecord) → Rising s (filtered (some s) end msgs)
unfolding filtered
filtered-Rising s end msgs =
    keep-after s (λ m. is_after (some s) m && is_until end m) (sort_messages msgs)
      (λ m h. ground arith) (sort_messages-Sorted msgs)

-- The rows behind the page.
abbrev pub behind : ℕ → ℕ → Option ℤ → List MessageRecord → List MessageRecord
behind limit n prev ms = drop (length (page_loop limit n prev ms)) ms

pub page_loop-behind :
    (limit n : ℕ) (prev : Option ℤ) (ms : List MessageRecord)
    → page_loop limit n prev ms ++ behind limit n prev ms ≡ ms
unfolding page_loop
page_loop-behind limit n prev [] = refl
page_loop-behind limit n prev (m ∷ ms) =
    elim (Bool-cases (is_new_second prev m.ts && leb limit n)) [
      | inl e ↦ rw e refl
      | inr e ↦ rw e (ap (λ l. m ∷ l) (page_loop-behind limit (n + 1) (some m.ts) ms))
    ]

-- What a page in progress keeps: its rows are up to its last second, those behind it are later.
pub record IsPage (p : ℤ) (page rest : List MessageRecord) : Type 0 where
  pub onward : p ≤ℤ last_ts p page
  pub inside : All (IsUpTo (last_ts p page)) page
  pub later : All (IsAfter (last_ts p page)) rest

pub page_loop-IsPage :
    (limit n : ℕ) (p : ℤ) (ms : List MessageRecord)
    → Rising p ms
    → IsPage p (page_loop limit n (some p) ms) (behind limit n (some p) ms)
unfolding page_loop
page_loop-IsPage limit n p [] r = record { onward = omega arith; inside = tt; later = tt }
page_loop-IsPage limit n p (m ∷ ms) r =
    elim (Bool-cases (is_new_second (some p) m.ts && leb limit n)) [
      | inl e ↦
          let new : ltb_ℤ p m.ts ≡ true = ground (arith, r.0) in
          rw e (record {
            onward = omega arith;
            inside = tt;
            later = (new, Rising-IsAfter p m.ts ms new r.1);
          })
      | inr e ↦
          let more = page_loop-IsPage limit (n + 1) m.ts ms r.1 in
          rw e (record {
            onward = omega (arith, r.0, more.onward);
            inside = (ground (arith, more.onward), more.inside);
            later = more.later;
          })
    ]
