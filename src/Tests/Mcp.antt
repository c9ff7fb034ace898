-- ===== src/Tests/Mcp.antt =====
-- Concrete runs for src/mcp.rs.
use qqflow_server.Prelude.{ℕ, ◌≡◌, refl, false, none, some, List, [], ◌∷◌, unwrap_or, if◌then◌else◌}
use qqflow_server.Text.{Text, utf8, text_eq}
use qqflow_server.Server.Requests.{Result, ok}
use qqflow_server.Mcp.Pages.{Json, MessageQuery, Page, ClientError}
use qqflow_server.Mcp.Paging.{slice, view, read_all, get_messages_raw-view}

abbrev first_value : List (Text × ℕ) → ℕ
first_value [] = 0
first_value ((k, v) ∷ fields) = v

-- Values are the contents of messages, each so long that no two fit one page.
abbrev long_values : Json ℕ
long_values = record {
  get = λ v k. if text_eq k (utf8 "content") then some v else none;
  is_null = λ v. false;
  object = first_value;
  size = λ v. 20000;
}

abbrev rows : List ℕ
rows = 11 ∷ 12 ∷ 13 ∷ []

abbrev served : MessageQuery → Result (Page ℕ) ClientError
served q = ok (slice rows (unwrap_or 0 q.offset) (unwrap_or 0 q.limit))

abbrev asked : MessageQuery
asked = record {
  talker = utf8 "10001";
  keyword = none;
  start = none;
  end = none;
  limit = some 2;
  offset = none;
}

get_messages_raw-view_example :
    read_all long_values some served asked 4 0 ≡ some (view long_values (λ m. m) rows)
get_messages_raw-view_example =
    get_messages_raw-view long_values (λ m. m) some served asked rows (λ m. refl)
      (λ start limit. refl)

all_shown : view long_values (λ m. m) rows ≡ rows
all_shown = refl
