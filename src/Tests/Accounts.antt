-- ===== src/Tests/Accounts.antt =====
-- server/mod.rs with an index that is a list of talkers and a channel that keeps every message.
use qqflow_server.Prelude.{◌≡◌, refl, true, false, none, some, List, [], ◌∷◌, ◌++◌, length, arith}
use qqflow_server.Prelude.Int.{pos}
use qqflow_server.Text.{Text, utf8, text_eq}
use qqflow_server.Server.Locations.{DbInfo}
use qqflow_server.Server.Accounts.{
  AccountStatus, AccountState, BindOutcome, is_running, bound_account, begin_indexing,
}
use qqflow_server.Server.Accounts.Binding.{IsRegistry, begin_indexing-exclusive}
use qqflow_server.Sync.History.{new_bus}
use qqflow_server.Server.Registry.{
  Index, Build, Clock, AppState, DeregisterOutcome, install_index, set_account_state_if_current,
  init_start, init_finish, deregister_account,
}
use qqflow_server.Server.Registry.Steps.{Action, perform_all, init_account-cancelled}
use qqflow_server.Server.Registry.Deregister.{
  IsRetired, deregister_account-IsRetired, deregister_account-refused,
}
use qqflow_server.Server.Registry.Init.{IsServing}
use qqflow_server.Server.Registry.Late.{deregister_account-late_init}
use qqflow_server.Tests.Bus.{log_channel}

abbrev talkers_only : Index
talkers_only = record {
  Store = List Text;
  default = [];
  talkers = λ st. st;
  message_count = λ st. length st;
  watermark_group = λ st. pos (length st);
  watermark_c2c = λ st. pos 0;
}

abbrev pub ann : Text
ann = utf8 "10001"

abbrev pub bob : Text
bob = utf8 "10002"

abbrev pub entry : Text → AccountStatus → AccountState
entry qq status = record {
  qq = qq;
  state = status;
  message_count = 0;
  error = none;
  progress = none;
}

abbrev scanned_two : List AccountState
scanned_two = entry ann AccountStatus.awaiting_key ∷ entry bob AccountStatus.awaiting_key ∷ []

abbrev pub bob_ready : List AccountState
bob_ready = entry ann AccountStatus.awaiting_key ∷ entry bob AccountStatus.ready ∷ []

abbrev pub clock : Clock
clock = record { now = 5; timestamp = pos 1_700_000_000 }

abbrev app : List AccountState → AppState log_channel talkers_only
app accs = record {
  accounts = accs;
  store = ann ∷ [];
  bus = new_bus log_channel 16;
  ready = true;
  engines = bob ∷ [];
  watchers = bob ∷ [];
  accounts_db = [];
  scanned = ann ∷ [];
  epoch = 0;
  generation = 1;
}

scanned-IsRegistry : IsRegistry scanned_two
scanned-IsRegistry = ((refl, tt), λ h. ground arith, (tt, λ h. tt, tt))

pub bob_ready-IsRegistry : IsRegistry bob_ready
bob_ready-IsRegistry = ((refl, tt), λ h. ground arith, (tt, λ h. tt, tt))

pub bob_bound : bound_account bob_ready ≡ some (entry bob AccountStatus.ready)
unfolding bound_account
bob_bound = refl

nobody_holds :
    (b : AccountState)
    → bound_account scanned_two ≡ some b
    → (text_eq b.qq bob ≡ true) × (is_running b.state ≡ false)
unfolding bound_account
nobody_holds b h = absurd (cc h)

begin_indexing-exclusive_example :
    ((begin_indexing scanned_two bob).0 ≡ BindOutcome.bound)
    × (begin_indexing (begin_indexing scanned_two bob).1 ann
        ≡ (BindOutcome.occupied bob AccountStatus.indexing, (begin_indexing scanned_two bob).1))
begin_indexing-exclusive_example =
    begin_indexing-exclusive scanned_two bob ann scanned-IsRegistry nobody_holds refl

deregister_account-IsRetired_example :
    let (outcome, after) =
      deregister_account log_channel talkers_only bob none clock (app bob_ready) in
    (outcome ≡ DeregisterOutcome.deregistered AccountStatus.ready true 0)
    × IsRetired log_channel talkers_only (app bob_ready) after clock
deregister_account-IsRetired_example =
    deregister_account-IsRetired log_channel talkers_only (app bob_ready)
      (entry bob AccountStatus.ready) none clock bob_ready-IsRegistry bob_bound

deregister_account-refused_example :
    let after = (deregister_account log_channel talkers_only bob none clock (app bob_ready)).1 in
    (deregister_account log_channel talkers_only ann none clock (app bob_ready)
      ≡ (DeregisterOutcome.qq_mismatch bob AccountStatus.ready, app bob_ready))
    × (deregister_account log_channel talkers_only bob none clock after
        ≡ (DeregisterOutcome.not_registered, after))
deregister_account-refused_example =
    deregister_account-refused log_channel talkers_only (app bob_ready)
      (entry bob AccountStatus.ready) ann bob none none clock clock bob_ready-IsRegistry bob_bound
      refl

deregister_account-late_init_example :
    let after = (deregister_account log_channel talkers_only bob none clock (app bob_ready)).1 in
    IsServing log_channel talkers_only bob (ann ∷ bob ∷ []) (
      init_finish log_channel talkers_only
        (init_start log_channel talkers_only bob after)
        (Build.built (ann ∷ bob ∷ []))
        clock
        after)
deregister_account-late_init_example =
    deregister_account-late_init log_channel talkers_only (app bob_ready)
      (entry bob AccountStatus.ready) none clock (ann ∷ bob ∷ []) bob_ready-IsRegistry bob_bound

init_account-cancelled_example :
    let late =
      perform_all log_channel talkers_only
        ([] ++ Action.cleared ∷ Action.begin ann ∷ [])
        (app bob_ready) in
    let task = init_start log_channel talkers_only bob (app bob_ready) in
    (install_index log_channel talkers_only task (bob ∷ []) clock late ≡ (false, late))
    × (set_account_state_if_current log_channel talkers_only task AccountStatus.ready 1 none late
        ≡ (false, late))
init_account-cancelled_example =
    init_account-cancelled log_channel talkers_only (app bob_ready) bob [] (Action.begin ann ∷ [])
      (bob ∷ []) clock AccountStatus.ready 1 none

abbrev at_path : Text → Text → DbInfo
at_path qq path = record { qq = qq; path = path }

abbrev locations : List DbInfo
locations = at_path ann (utf8 "/a") ∷ at_path bob (utf8 "/b") ∷ []
