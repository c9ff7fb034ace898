-- ===== src/Server/Pull/Drain.antt =====
-- A client of the Pull protocol that follows the cursors to the end.
use qqflow_server.Prelude.{
  unwrap_or, ℕ, zero, suc, ◌+◌, ◌-◌, ◌^◌, ◌≤◌, ◌≡◌, refl, ap, sym, ◌∙◌, Bool, true, false, not,
  Bool-cases, inl, inr, Option, none, some, List, [], ◌∷◌, ◌++◌, ◌⊎◌, ◌<◌, keep, ltb, min, ◌&&◌,
  All, length, length-append, drop-past_end, arith, keep-keep, keep-append, keep-none,
  keep_everything, keep-All, All-drop, All-map, All-both, if◌then◌else◌,
}
use mathlib.Core.Path.{ap₂}
use mathlib.Core.List.{append-nil}
use qqflow_server.Prelude.Int.{ℤ, ltb_ℤ}
use qqflow_server.Types.{MessageRecord}
use qqflow_server.Store.{sort_messages}
use qqflow_server.Server.Pull.{is_after, is_until, filtered, page_loop, last_ts, pull, PullSync}
use qqflow_server.Server.Pull.Pages.{
  Rising, IsAfter, IsPage, behind, filtered-Rising, page_loop-behind, page_loop-IsPage,
}

-- The page of a request without offset, among rows that are later than `s`.
first_page : List MessageRecord → ℕ → List MessageRecord
first_page rows limit = page_loop limit 0 none rows

first_page-IsPage :
    (limit : ℕ) (s : ℤ) (rows : List MessageRecord)
    → Rising s rows
    → All (IsAfter s) rows
    → IsPage s (first_page rows limit) (behind limit 0 none rows)
unfolding page_loop first_page
first_page-IsPage limit s [] r after = record { onward = omega arith; inside = tt; later = tt }
first_page-IsPage limit s (m ∷ ms) r after =
    let more = page_loop-IsPage limit 1 m.ts ms r.1 in
    record {
      onward = omega (arith, r.0, more.onward);
      inside = (ground (arith, more.onward), more.inside);
      later = more.later;
    }

first_page-advances :
    (limit : ℕ) (s : ℤ) (m : MessageRecord) (ms : List MessageRecord)
    → Rising s (m ∷ ms)
    → All (IsAfter s) (m ∷ ms)
    → ltb_ℤ s (last_ts s (first_page (m ∷ ms) limit)) ≡ true
unfolding page_loop first_page
first_page-advances limit s m ms r after =
    let more = page_loop-IsPage limit 1 m.ts ms r.1 in ground (arith, after.0, more.onward)

first_page-length :
    (limit : ℕ) (m : MessageRecord) (ms : List MessageRecord)
    → 1 ≤ length (first_page (m ∷ ms) limit)
unfolding page_loop first_page
first_page-length limit m ms = omega arith

filtered-IsAfter :
    (s : ℤ) (end : Option ℤ) (msgs : List MessageRecord)
    → All (IsAfter s) (filtered (some s) end msgs)
unfolding filtered
filtered-IsAfter s end msgs =
    keep-All (λ m. is_after (some s) m && is_until end m) (sort_messages msgs) (λ m h. ground arith)

filtered-is_until :
    (s : ℤ) (end : Option ℤ) (msgs : List MessageRecord)
    → All (λ m. is_until end m ≡ true) (filtered (some s) end msgs)
unfolding filtered
filtered-is_until s end msgs =
    keep-All (λ m. is_after (some s) m && is_until end m) (sort_messages msgs) (λ m h. ground arith)

-- Asking again from the last second of a page gives the rows behind it.
filtered-behind :
    (limit : ℕ) (s : ℤ) (end : Option ℤ) (msgs : List MessageRecord)
    → let rows = filtered (some s) end msgs in
      filtered (some (last_ts s (first_page rows limit))) end msgs ≡ behind limit 0 none rows
unfolding filtered first_page
filtered-behind limit s end msgs =
    let rows = filtered (some s) end msgs in
    let page = page_loop limit 0 none rows in
    let rest = behind limit 0 none rows in
    let t : ℤ = last_ts s page in
    let p : MessageRecord → Bool = λ m. is_after (some s) m && is_until end m in
    let q : MessageRecord → Bool = λ m. is_after (some t) m && is_until end m in
    let is_page : IsPage s page rest =
      first_page-IsPage limit s rows (filtered-Rising s end msgs) (filtered-IsAfter s end msgs) in
    let past : keep q page ≡ [] =
      keep-none q page (All-map _ _ page (λ m h. ground (arith, h)) is_page.inside) in
    let ahead : keep q rest ≡ rest = keep_everything q rest (
      All-map _ _ rest (λ m h. ground (arith, h))
        (All-both _ _ rest is_page.later
          (All-drop _ (length page) rows (filtered-is_until s end msgs)))) in
    sym (keep-keep p q (sort_messages msgs) (λ m h. ground (arith, h, is_page.onward)))
    ∙ ap (keep q) (sym (page_loop-behind limit 0 none rows))
    ∙ keep-append q page rest
    ∙ ap (λ l. l ++ keep q rest) past
    ∙ ahead

rows_or_none :
    (rows : List MessageRecord)
    → (rows ≡ []) ⊎ ((m : MessageRecord) × (ms : List MessageRecord) × (rows ≡ m ∷ ms))
rows_or_none [] = inl refl
rows_or_none (m ∷ ms) = inr (m, ms, refl)

-- The answer to a request without offset, from its rows.
answer : ℕ → ℤ → ℤ → List MessageRecord → List MessageRecord × PullSync
answer limit s watermark rows =
    let page = first_page rows limit in
    let has_more = ltb (0 + length page) (length rows) in
    (
      page,
      record {
        has_more = has_more;
        next_since = if has_more then last_ts s page else watermark;
        next_offset =
            if has_more && not (ltb_ℤ s (last_ts s page))
            then min (2 ^ 64 - 1) (0 + length page)
            else 0;
        watermark = watermark;
      },
    )

pull-answer :
    (limit : ℕ) (s : ℤ) (end : Option ℤ) (now : ℤ) (msgs : List MessageRecord)
    → pull limit 0 (some s) end now msgs
      ≡ answer limit s (unwrap_or now end) (filtered (some s) end msgs)
unfolding pull answer first_page
pull-answer limit s end now msgs =
    let e : min 0 (length (filtered (some s) end msgs)) ≡ 0 = omega arith in rw e refl

answer-advances :
    (limit : ℕ) (s watermark : ℤ) (rows : List MessageRecord)
    → Rising s rows
    → All (IsAfter s) rows
    → (answer limit s watermark rows).1.has_more ≡ true
    → let sync = (answer limit s watermark rows).1 in
      (ltb_ℤ s sync.next_since ≡ true)
      × (sync.next_offset ≡ 0)
      × (sync.next_since ≡ last_ts s (first_page rows limit))
unfolding answer
answer-advances limit s watermark [] r after more = absurd (ground (arith, more))
answer-advances limit s watermark (m ∷ ms) r after more =
    let adv = first_page-advances limit s m ms r after in
    (ground (arith, more, adv), ground (arith, adv), ground (arith, more))

-- A page that leaves rows behind moves the cursor on: `nextSince` is later than `since`, so that
-- `nextOffset` is 0.
pub pull-advances :
    (limit : ℕ) (s : ℤ) (end : Option ℤ) (now : ℤ) (msgs : List MessageRecord)
    → (pull limit 0 (some s) end now msgs).1.has_more ≡ true
    → let sync = (pull limit 0 (some s) end now msgs).1 in
      (ltb_ℤ s sync.next_since ≡ true) × (sync.next_offset ≡ 0)
pull-advances limit s end now msgs more =
    let e = pull-answer limit s end now msgs in
    let (later, no_offset, _) =
      answer-advances limit s (unwrap_or now end) (filtered (some s) end msgs)
        (filtered-Rising s end msgs) (filtered-IsAfter s end msgs)
        (sym (ap (λ a. a.1.has_more) e) ∙ more) in
    rw e (later, no_offset)

-- A client that asks again with both cursors while there is more, at most `fuel` times.
unfoldable pub drain : ℕ → ℕ → ℕ → ℤ → Option ℤ → ℤ → List MessageRecord → List MessageRecord
drain zero limit offset s end now msgs = []
drain (suc fuel) limit offset s end now msgs =
    let (page, sync) = pull limit offset (some s) end now msgs in
    let more = drain fuel limit sync.next_offset sync.next_since end now msgs in
    if sync.has_more then page ++ more else page

first_page-behind :
    (limit : ℕ) (rows : List MessageRecord)
    → first_page rows limit ++ behind limit 0 none rows ≡ rows
unfolding first_page
first_page-behind limit rows = page_loop-behind limit 0 none rows

-- A page with nothing behind it holds all rows.
answer_complete :
    (limit : ℕ) (s watermark : ℤ) (rows : List MessageRecord)
    → (answer limit s watermark rows).1.has_more ≡ false
    → (answer limit s watermark rows).0 ≡ rows
unfolding answer first_page
answer_complete limit s watermark rows stop =
    let page = page_loop limit 0 none rows in
    let all : length rows ≤ length page = ground (arith, stop) in
    let nothing : behind limit 0 none rows ≡ [] = drop-past_end (length page) rows all in
    sym (append-nil page) ∙ ap (λ l. page ++ l) (sym nothing) ∙ page_loop-behind limit 0 none rows

length-first_page :
    (limit : ℕ) (rows : List MessageRecord)
    → length (first_page rows limit) + length (behind limit 0 none rows) ≡ length rows
length-first_page limit rows =
    sym (length-append (first_page rows limit) (behind limit 0 none rows))
    ∙ ap length (first_page-behind limit rows)

behind-length :
    (limit : ℕ) (s watermark : ℤ) (rows : List MessageRecord)
    → (answer limit s watermark rows).1.has_more ≡ true
    → length (behind limit 0 none rows) < length rows
unfolding answer
behind-length limit s watermark [] more = absurd (ground (arith, more))
behind-length limit s watermark (m ∷ ms) more =
    let taken = first_page-length limit m ms in
    omega (arith, taken, length-first_page limit (m ∷ ms))

-- Following the cursors gives every message after `s` and up to `end` exactly once, in the order of
-- second and row, whatever the page size, in at most as many requests as there are messages and one.
pub drain-filtered :
    (fuel limit : ℕ) (s : ℤ) (end : Option ℤ) (now : ℤ) (msgs : List MessageRecord)
    → length (filtered (some s) end msgs) < fuel
    → drain fuel limit 0 s end now msgs ≡ filtered (some s) end msgs
unfolding drain answer
drain-filtered zero limit s end now msgs h = absurd (omega arith)
drain-filtered (suc fuel) limit s end now msgs h =
    let rows = filtered (some s) end msgs in
    let page = first_page rows limit in
    let t : ℤ = last_ts s page in
    let (got, sync) = pull limit 0 (some s) end now msgs in
    let e = pull-answer limit s end now msgs in
    elim (Bool-cases sync.has_more) [
      | inr stop ↦ rw stop (
          ap (λ a. a.0) e
          ∙ answer_complete limit s (unwrap_or now end) rows
              (sym (ap (λ a. a.1.has_more) e) ∙ stop))
      | inl more ↦
          let more' = sym (ap (λ a. a.1.has_more) e) ∙ more in
          let (_, no_offset, at) =
            answer-advances limit s (unwrap_or now end) rows (filtered-Rising s end msgs)
              (filtered-IsAfter s end msgs) more' in
          let next = filtered-behind limit s end msgs in
          let fewer : length (behind limit 0 none rows) < length rows =
            behind-length limit s (unwrap_or now end) rows more' in
          rw more (
            ap₂ (λ l r. l ++ r) (ap (λ a. a.0) e)
              (ap₂ (λ (o : ℕ) (u : ℤ). drain fuel limit o u end now msgs)
                  (ap (λ a. a.1.next_offset) e ∙ no_offset) (ap (λ a. a.1.next_since) e ∙ at)
                ∙ drain-filtered fuel limit t end now msgs (omega (arith, ap length next, fewer))
                ∙ next)
            ∙ first_page-behind limit rows)
    ]
