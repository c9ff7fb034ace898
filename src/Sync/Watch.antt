-- ===== src/Sync/Watch.antt =====
-- src/sync/watch.rs: the loop that syncs when a source file changes. Each turn takes what the
-- library's `select!` gives it: the debouncer's events, a message of the channel, or a tick.
pub mod Recovery
use qqflow_server.Prelude.{
  ℕ, Bool, true, false, not, ◌&&◌, ◌||◌, Option, none, some, List, [], ◌∷◌, ◌++◌, any,
  if◌then◌else◌,
}
use qqflow_server.Prelude.Int.{ℤ}
use qqflow_server.Text.{Text, utf8, text_eq}
use qqflow_server.Types.{to_ascii_lowercase}
use qqflow_server.PathSafe.Contained.{Platform}
use qqflow_server.Sync.Events.{Event}
use qqflow_server.Sync.Poll.{AccountSync, Select, changed, poll_once}

abbrev watch_files : List Text
watch_files = utf8 "nt_msg.db" ∷ utf8 "nt_msg.db-wal" ∷ utf8 "nt_msg.db-shm" ∷ []

-- `eq_ignore_ascii_case` with one of the source files.
unfoldable pub is_relevant : Text → Bool
is_relevant name = any (λ w. text_eq (to_ascii_lowercase name) (to_ascii_lowercase w)) watch_files

-- The path of a change is only logged.
pub data WatchMsg : Type 0 where
  changed_file : Text → WatchMsg
  backend_error : WatchMsg

abbrev pub is_backend_error : WatchMsg → Bool
is_backend_error (changed_file p) = false
is_backend_error backend_error = true

-- What the debouncer hands to its handler: the names of the files, or an error.
pub data DebounceResult : Type 0 where
  debounced : List Text → DebounceResult
  failed : DebounceResult

abbrev relevant_messages : List Text → List WatchMsg
relevant_messages [] = []
relevant_messages (name ∷ names) =
    let more = relevant_messages names in
    if is_relevant name then changed_file name ∷ more else more

-- The messages that the handler of `rebuild_watcher` sends.
unfoldable pub handler : DebounceResult → List WatchMsg
unfolding is_relevant
handler (debounced names) = relevant_messages names
handler failed = backend_error ∷ []

-- `watching` says that there is a debouncer, `queue` is the channel, and `published` what the
-- passes have sent.
pub record WatchState : Type 0 where
  pub watching : Bool
  pub queue : List WatchMsg
  pub account : AccountSync
  pub published : List Event

-- What a pass finds: the connection and the clock.
pub record Source : Type 0 where
  pub conn : Option Select
  pub now : ℤ

abbrev pub events_of_pass : {R : Type 0} → Option (List Event × R) → List Event
events_of_pass none = []
events_of_pass (some (events, rows)) = events

module _ (platform : Platform) where
  unfoldable pub sync_once : Source → WatchState → WatchState
  sync_once src st =
      let pass = poll_once platform src.conn src.now st.account in
      record st { account = pass.1; published = st.published ++ events_of_pass pass.0 }

  -- A debouncer that is gone hands over nothing.
  unfoldable pub on_events : DebounceResult → WatchState → WatchState
  unfolding handler
  on_events res st = if st.watching then record st { queue = st.queue ++ handler res } else st

  unfoldable pub on_message : Source → WatchState → WatchState
  unfolding sync_once
  on_message src st = elim st.queue [
    | [] ↦ st
    | msg ∷ rest ↦ elim msg [
      | changed_file p ↦
          sync_once src
            (record st { watching = st.watching && not (any is_backend_error rest); queue = [] })
      | backend_error ↦ record st { watching = false; queue = rest }
    ]
  ]

  -- `attach` says whether `rebuild_watcher` succeeds, `fallback` whether the configuration has one.
  unfoldable pub on_tick : Bool → Bool → Bool → Option (ℕ × ℕ) → Source → WatchState → WatchState
  unfolding sync_once
  on_tick fallback attach is_open snap src st =
      let st' = record st { watching = st.watching || attach } in
      if fallback
      then (let asked = changed is_open snap st.account in
          let st'' = record st' { account = asked.1 } in
          if asked.0 then sync_once src st'' else st'')
      else st'
