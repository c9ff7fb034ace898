-- ===== src/Mcp/Pages.antt =====
-- src/mcp.rs: the limits, the pages, and how much of a page is shown.
use qqflow_server.Prelude.{
  ℕ, ◌+◌, Bool, ◌&&◌, Option, none, some, List, [], ◌∷◌, ◌++◌, take, length, ltb, unwrap_or,
  if◌then◌else◌, ◌==◌,
}
use qqflow_server.Prelude.Int.{ℤ}
use qqflow_server.Text.{Text, utf8}
use qqflow_server.Server.Requests.{Result, ok, err}

abbrev pub char_budget : ℕ
char_budget = 32768

abbrev pub default_limit : ℕ
default_limit = 50

abbrev pub max_limit : ℕ
max_limit = 200

abbrev pub clamp_limit : Option ℕ → ℕ
clamp_limit v =
    let n = unwrap_or default_limit v in
    if ltb n 1 then 1 else if ltb max_limit n then max_limit else n

abbrev pub chatlab_message_keys : List Text
chatlab_message_keys =
    utf8 "platformMessageId"
    ∷ utf8 "timestamp"
    ∷ utf8 "sender"
    ∷ utf8 "accountName"
    ∷ utf8 "groupNickname"
    ∷ utf8 "type"
    ∷ utf8 "content"
    ∷ utf8 "replyToMessageId"
    ∷ utf8 "media"
    ∷ []

abbrev pub native_message_keys : List Text
native_message_keys =
    utf8 "serverId"
    ∷ utf8 "createTime"
    ∷ utf8 "senderName"
    ∷ utf8 "senderUsername"
    ∷ utf8 "content"
    ∷ utf8 "rawContent"
    ∷ utf8 "isSend"
    ∷ utf8 "localType"
    ∷ utf8 "replyToMessageId"
    ∷ utf8 "media"
    ∷ []

-- What a tool answers, says that it has not got, or fails with.
pub data Outcome (A : Type 0) : Type 0 where
  answered : A → Outcome A
  tool_error : Text → Outcome A
  internal_error : Text → Outcome A

-- An error of the SDK: a status of the server, or any other. The text is what it prints.
pub data ClientError : Type 0 where
  status : ℕ → Text → ClientError
  unusable : Text → ClientError

abbrev pub sdk_outcome : {A : Type 0} → ClientError → Outcome A
sdk_outcome (status code shown) = if code == 404 then tool_error shown else internal_error shown
sdk_outcome (unusable shown) = internal_error shown

abbrev pub answer : {P A : Type 0} → (P → A) → Result P ClientError → Outcome A
answer f (ok page) = answered (f page)
answer f (err e) = sdk_outcome e

pub record Projected (V : Type 0) : Type 0 where
  pub items : List V
  pub truncated : Bool

-- The items that fit, behind those that were taken: the first is always taken.
unfoldable pub fill : {V : Type 0} → (V → ℕ) → ℕ → List V → List V → ℕ → List V
fill size budget [] taken used = taken
fill size budget (item ∷ items) taken used =
    let more = fill size budget items (taken ++ item ∷ []) (used + size item) in
    if ltb 0 (length taken) && ltb budget (used + size item) then taken else more

unfoldable pub project_messages : {V : Type 0} → (V → ℕ) → List V → ℕ → ℕ → Projected V
unfolding fill
project_messages size items max_items budget =
    let kept = fill size budget (take max_items items) [] 0 in
    record { items = kept; truncated = ltb (length kept) (length items) }

-- A JSON value: `size` is the number of characters of its text, 0 where it has none.
pub record Json (V : Type 0) : Type 0 where
  pub get : V → Text → Option V
  pub is_null : V → Bool
  pub object : List (Text × V) → V
  pub size : V → ℕ

pub record MessageQuery : Type 0 where
  pub talker : Text
  pub keyword : Option Text
  pub start : Option Text
  pub end : Option Text
  pub limit : Option ℕ
  pub offset : Option ℕ

-- A page of the server: its rows, and whether there are more.
pub record Page (M : Type 0) : Type 0 where
  pub rows : List M
  pub has_more : Bool

-- A page of Pull, with the cursors of the server.
pub record PullPage (M : Type 0) : Type 0 where
  pub rows : List M
  pub has_more : Bool
  pub next_since : ℤ
  pub next_offset : ℕ

pub record Shown (V : Type 0) : Type 0 where
  pub count : ℕ
  pub truncated : Bool
  pub has_more : Bool
  pub next_offset : ℕ
  pub rows : List V

-- How the rest of a page that was cut is asked for: with the absolute bound, where there was one.
pub data Hint : Type 0 where
  resend_since resend_offset : Hint

pub record ShownPull (V : Type 0) : Type 0 where
  pub count : ℕ
  pub page_size : ℕ
  pub truncated : Bool
  pub has_more : Bool
  pub next_since : Option ℤ
  pub next_offset : ℕ
  pub since_resolved : Option ℤ
  pub hint : Option Hint
  pub rows : List V

pub record ShownSome (V : Type 0) : Type 0 where
  pub count : ℕ
  pub total : Option ℕ
  pub truncated : Bool
  pub rows : List V

-- `filter_map(|m| serde_json::to_value(m).ok())`
abbrev pub filter_map : {M V : Type 0} → (M → Option V) → List M → List V
filter_map f [] = []
filter_map f (m ∷ ms) = elim (f m) [ none ↦ filter_map f ms | some v ↦ v ∷ filter_map f ms ]
