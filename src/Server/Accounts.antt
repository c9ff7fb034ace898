-- ===== src/Server/Accounts.antt =====
-- server/mod.rs: the states of accounts and the operations on the list of accounts.
pub mod Binding
use qqflow_server.Prelude.{
  ℕ, Bool, true, false, ◌&&◌, not, Option, none, some, List, [], ◌∷◌, find, keep, all,
  if◌then◌else◌,
}
use qqflow_server.Text.{Text, text_eq, is_empty}
use qqflow_server.Store.Scan.{IndexProgress}

pub data AccountStatus : Type 0 where
  awaiting_key indexing ready error : AccountStatus

unfoldable pub is_ready : AccountStatus → Bool
is_ready AccountStatus.ready = true
is_ready _ = false

-- `state != AccountStatus::AwaitingKey`
abbrev pub is_registered : AccountStatus → Bool
is_registered AccountStatus.awaiting_key = false
is_registered _ = true

abbrev pub no_progress : IndexProgress
no_progress = record { tables_done = 0; tables_total = 0; messages_indexed = 0 }

pub record AccountState : Type 0 where
  pub qq : Text
  pub state : AccountStatus
  pub message_count : ℕ
  pub error : Option Text
  pub progress : Option IndexProgress

pub data AccountPhase : Type 0 where
  unregistered indexing ready error : AccountPhase

unfoldable pub phase_of : AccountStatus → AccountPhase
phase_of AccountStatus.awaiting_key = AccountPhase.unregistered
phase_of AccountStatus.indexing = AccountPhase.indexing
phase_of AccountStatus.ready = AccountPhase.ready
phase_of AccountStatus.error = AccountPhase.error

unfoldable pub bound_account : List AccountState → Option AccountState
bound_account = find (λ a. is_registered a.state)

-- `iter_mut().find(|a| a.qq == qq)`: the first entry of `qq` is changed, or a new one is pushed.
unfoldable pub update_or_push :
    Text → (AccountState → AccountState) → AccountState → List AccountState → List AccountState
update_or_push qq f new [] = new ∷ []
update_or_push qq f new (a ∷ others) =
    let rest = update_or_push qq f new others in if text_eq a.qq qq then f a ∷ others else a ∷ rest

unfoldable pub write_account_state :
    List AccountState → Text → AccountStatus → ℕ → Option Text → List AccountState
write_account_state accs qq status count err =
    update_or_push qq (λ a. record a { state = status; message_count = count; error = err })
      (record { qq = qq; state = status; message_count = count; error = err; progress = none }) accs

-- The write of `begin_indexing`.
unfoldable pub claim : List AccountState → Text → List AccountState
claim accs qq =
    update_or_push qq
      (λ a. record a {
        state = AccountStatus.indexing;
        message_count = 0;
        error = none;
        progress = some no_progress;
      })
      (record {
        qq = qq;
        state = AccountStatus.indexing;
        message_count = 0;
        error = none;
        progress = some no_progress;
      })
      accs

pub data BindOutcome : Type 0 where
  bound : BindOutcome
  same_qq : AccountStatus → BindOutcome
  occupied : Text → AccountStatus → BindOutcome

-- `matches!(b.state, Ready | Indexing)`
abbrev pub is_running : AccountStatus → Bool
is_running AccountStatus.ready = true
is_running AccountStatus.indexing = true
is_running _ = false

-- Check and write happen under one write lock.
unfoldable pub begin_indexing : List AccountState → Text → BindOutcome × List AccountState
begin_indexing accs qq = elim (bound_account accs) [
  | none ↦ (bound, claim accs qq)
  | some b ↦
      if not (text_eq b.qq qq)
      then (occupied b.qq b.state, accs)
      else if is_running b.state
      then (same_qq b.state, accs)
      else (bound, claim accs qq)
]

-- `registered.peek().is_some() && registered.all(|a| a.state.is_ready())`
unfoldable pub all_ready : List AccountState → Bool
all_ready accs =
    let registered = keep (λ (a : AccountState). is_registered a.state) accs in
    not (is_empty registered) && all (λ a. is_ready a.state) registered

-- The entry of a scanned account goes back to `awaiting_key`; its `progress` stays.
unfoldable pub reset_first : Text → List AccountState → List AccountState
reset_first qq [] = []
reset_first qq (a ∷ others) =
    let rest = reset_first qq others in
    if text_eq a.qq qq
    then record a { state = AccountStatus.awaiting_key; message_count = 0; error = none } ∷ others
    else a ∷ rest

-- `retain(|a| a.qq != qq)`
unfoldable pub remove_account : Text → List AccountState → List AccountState
remove_account qq [] = []
remove_account qq (a ∷ others) =
    let rest = remove_account qq others in if text_eq a.qq qq then rest else a ∷ rest
