-- ===== src/Mcp.antt =====
-- src/mcp.rs: the tools that show pages of the server to an agent. The SDK's calls and what
-- `serde_json` does are parameters. A reply is without the fields that repeat an argument.
pub mod Pages
pub mod Paging
use qqflow_server.Prelude.{
  ℕ, zero, suc, ◌+◌, ◌≤◌, Bool, true, false, not, ◌&&◌, ◌||◌, Option, none, some, List, [], ◌∷◌,
  ◌++◌, map, take, length, is_some, ltb, leb, unwrap_or, if◌then◌else◌, ◌==◌,
}
use qqflow_server.Prelude.Int.{ℤ}
use qqflow_server.Text.{Text, utf8}
use qqflow_server.Server.Requests.{Result, ok, err}
use qqflow_server.Mcp.Pages.{
  ClientError, Hint, Json, MessageQuery, Outcome, Page, Projected, PullPage, Shown, ShownPull,
  ShownSome, answer, answered, char_budget, chatlab_message_keys, clamp_limit, default_limit, fill,
  filter_map, internal_error, max_limit, native_message_keys, project_messages, resend_offset,
  resend_since, sdk_outcome, status, tool_error, unusable,
}

module _ {V : Type 0} (json : Json V) where
  -- The values of the keys that are there and not null.
  abbrev picked : V → List Text → List (Text × V)
  picked v [] = []
  picked v (k ∷ keys) = elim (json.get v k) [
    | none ↦ picked v keys
    | some x ↦ if json.is_null x then picked v keys else (k, x) ∷ picked v keys
  ]

  abbrev pub pick : List Text → V → V
  pick keys v = json.object (picked v keys)

  abbrev pub project_list : List V → List Text → List V
  project_list items keys = map (pick keys) items

  -- A page that stands at an offset: the next one begins behind the rows that were shown.
  abbrev pub shown : ℕ → Projected V → Bool → Shown V
  shown start proj more = record {
    count = length proj.items;
    truncated = proj.truncated;
    has_more = more || proj.truncated;
    next_offset = start + length proj.items;
    rows = proj.items;
  }

  -- The reply of `get_messages`, from the page: a cut page has no `nextSince`, and its `nextOffset`
  -- is that of the first row that was cut.
  unfoldable pub pull_reply :
      {M : Type 0} → (M → Option V) → Option ℤ → ℕ → ℕ → PullPage M → ShownPull V
  unfolding project_messages
  pull_reply to_value since start limit page =
      let raw = filter_map to_value page.rows in
      let proj =
        project_messages json.size (project_list raw chatlab_message_keys) limit char_budget in
      record {
        count = length proj.items;
        page_size = length raw;
        truncated = proj.truncated;
        has_more = page.has_more || proj.truncated;
        next_since = if proj.truncated then none else some page.next_since;
        next_offset = if proj.truncated then start + length proj.items else page.next_offset;
        since_resolved = since;
        hint =
            if proj.truncated
            then some (if is_some since then resend_since else resend_offset)
            else none;
        rows = proj.items;
      }

  -- `since` is what `parse_since` makes of the argument.
  unfoldable pub get_messages :
      {M : Type 0}
      → (M → Option V)
      → (Text → Option ℤ → ℕ → ℕ → Result (PullPage M) ClientError)
      → Text
      → Result (Option ℤ) Text
      → Option ℕ
      → Option ℕ
      → Outcome (ShownPull V)
  unfolding pull_reply
  get_messages to_value pull_page talker (err e) limit offset = tool_error e
  get_messages to_value pull_page talker (ok since) limit offset =
      let n = clamp_limit limit in
      let start = unwrap_or 0 offset in
      answer (pull_reply to_value since start n) (pull_page talker since start n)

  unfoldable pub get_messages_raw :
      {M : Type 0}
      → (M → Option V)
      → (MessageQuery → Result (Page M) ClientError)
      → MessageQuery
      → Outcome (Shown V)
  unfolding project_messages
  get_messages_raw to_value list_messages a =
      let limit = clamp_limit a.limit in
      answer
        (λ page.
          shown (unwrap_or 0 a.offset)
            (project_messages json.size
              (project_list (filter_map to_value page.rows) native_message_keys) limit char_budget)
            page.has_more)
        (list_messages (record a { limit = some limit }))

  unfoldable pub search_messages :
      {M : Type 0}
      → (M → Option V)
      → (MessageQuery → Result (Page M) ClientError)
      → Text
      → Text
      → Option ℕ
      → Option ℕ
      → Outcome (Shown V)
  unfolding project_messages
  search_messages to_value chatlab_messages talker keyword limit offset =
      let n = clamp_limit limit in
      let start = unwrap_or 0 offset in
      let q : MessageQuery = record {
        talker = talker;
        keyword = some keyword;
        start = none;
        end = none;
        limit = some n;
        offset = some start;
      } in
      answer
        (λ page.
          shown start
            (project_messages json.size
              (project_list (filter_map to_value page.rows) chatlab_message_keys) n char_budget)
            page.has_more)
        (chatlab_messages q)

  -- The contacts: `contact` is the object of one.
  unfoldable pub get_contacts :
      {M : Type 0}
      → (M → V)
      → (Option ℕ → Option ℕ → Option Text → Result (Page M) ClientError)
      → Option Text
      → Option ℕ
      → Option ℕ
      → Outcome (Shown V)
  unfolding project_messages
  get_contacts contact contacts keyword limit offset =
      let n = clamp_limit limit in
      answer
        (λ page.
          shown (unwrap_or 0 offset)
            (project_messages json.size (map contact page.rows) n char_budget) page.has_more)
        (contacts (some n) offset keyword)

  abbrev shown_some : Option ℕ → Projected V → ShownSome V
  shown_some total proj = record {
    count = length proj.items;
    total = total;
    truncated = proj.truncated;
    rows = proj.items;
  }

  unfoldable pub list_sessions :
      {M : Type 0}
      → (M → V)
      → (Option Text → Result (List M) ClientError)
      → Option Text
      → Option ℕ
      → Outcome (ShownSome V)
  unfolding project_messages
  list_sessions session list_all_sessions keyword limit =
      answer
        (λ all.
          shown_some none
            (project_messages json.size (map session all) (clamp_limit limit) char_budget))
        (list_all_sessions keyword)

  unfoldable pub group_members :
      {M : Type 0}
      → (M → V)
      → (Text → Bool → Result (List M × ℕ) ClientError)
      → Text
      → Option Bool
      → Outcome (ShownSome V)
  unfolding project_messages
  group_members member members chatroom include_message_counts =
      answer
        (λ page.
          shown_some (some page.1)
            (project_messages json.size (map member page.0) max_limit char_budget))
        (members chatroom (unwrap_or false include_message_counts))
