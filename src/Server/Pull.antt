-- ===== src/Server/Pull.antt =====
-- server/handlers/chatlab_pull.rs: the pages of `GET /api/v1/sessions/:id/messages`, from the
-- conversation's messages to the `sync` block. `parse` and `Utc::now()` have given the arguments.
pub mod Pages
pub mod Drain
use qqflow_server.Prelude.{
  unwrap_or, ℕ, suc, ◌+◌, ◌-◌, ◌^◌, Bool, true, false, not, ◌&&◌, ◌||◌, Option, none, some, List,
  [], ◌∷◌, keep, ltb, leb, if◌then◌else◌, min, max, length, drop,
}
use qqflow_server.Prelude.Int.{ℤ, pos, negsuc, ltb_ℤ}
use qqflow_server.Types.{MessageRecord}
use qqflow_server.Store.{sort_messages}

-- `unwrap_or(5000).clamp(1, 5000)`
abbrev pub limit_of : Option ℕ → ℕ
limit_of none = 5000
limit_of (some n) = min 5000 (max 1 n)

abbrev pub is_after : Option ℤ → MessageRecord → Bool
is_after none m = true
is_after (some s) m = ltb_ℤ s m.ts

abbrev pub is_until : Option ℤ → MessageRecord → Bool
is_until none m = true
is_until (some e) m = not (ltb_ℤ e m.ts)

unfoldable pub filtered : Option ℤ → Option ℤ → List MessageRecord → List MessageRecord
filtered since end msgs = keep (λ m. is_after since m && is_until end m) (sort_messages msgs)

-- `prev_ts.is_some_and(|p| p != ts_j)`
abbrev pub is_new_second : Option ℤ → ℤ → Bool
is_new_second none ts = false
is_new_second (some p) ts = ltb_ℤ p ts || ltb_ℤ ts p

-- The loop over `page_end`; its second argument is `page_end - start`.
unfoldable pub page_loop : ℕ → ℕ → Option ℤ → List MessageRecord → List MessageRecord
page_loop limit n prev [] = []
page_loop limit n prev (m ∷ ms) =
    let more = page_loop limit (n + 1) (some m.ts) ms in
    if is_new_second prev m.ts && leb limit n then [] else m ∷ more

-- `page.last().map(|m| m.ts).unwrap_or(ts)`
abbrev pub last_ts : ℤ → List MessageRecord → ℤ
last_ts ts [] = ts
last_ts ts (m ∷ ms) = last_ts m.ts ms

abbrev pub i64_min : ℤ
i64_min = negsuc (2 ^ 63 - 1)

pub record PullSync : Type 0 where
  pub has_more : Bool
  pub next_since : ℤ
  pub next_offset : ℕ
  pub watermark : ℤ

-- The `sync` block of a page that starts at `start` among `total` rows.
abbrev pub sync_block : Option ℤ → ℤ → ℕ → ℕ → List MessageRecord → PullSync
sync_block since watermark start total page =
    let has_more = ltb (start + length page) total in
    let next_since = last_ts (unwrap_or (pos 0) since) page in
    record {
      has_more = has_more;
      next_since = if has_more then next_since else watermark;
      next_offset =
          if has_more && not (ltb_ℤ (unwrap_or i64_min since) next_since)
          then min (2 ^ 64 - 1) (start + length page)
          else 0;
      watermark = watermark;
    }

-- The page and the `sync` block; `now` is the watermark of a request without `end`.
unfoldable pub pull :
    ℕ → ℕ → Option ℤ → Option ℤ → ℤ → List MessageRecord → List MessageRecord × PullSync
pull limit offset since end now msgs =
    let rows = filtered since end msgs in
    let start = min offset (length rows) in
    let page = page_loop limit 0 none (drop start rows) in
    (page, sync_block since (unwrap_or now end) start (length rows) page)
