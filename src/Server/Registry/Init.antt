-- ===== src/Server/Registry/Init.antt =====
-- What an initialization that is not cancelled leaves behind, and one that starts too late.
use qqflow_server.Prelude.{
  ℕ, ◌≡◌, refl, ap, sym, ◌∙◌, true, Bool-cases, inl, inr, Option, none, some, List, [], ◌∷◌, keep,
  arith, ==_iff, ◌&&◌,
}
use qqflow_server.Text.{Text, text_eq, text_eq→eq}
use qqflow_server.Sync.History.{Broadcast}
use qqflow_server.Server.Accounts.{
  AccountStatus, AccountState, is_registered, is_ready, bound_account, all_ready,
  write_account_state, update_or_push,
}
use qqflow_server.Server.Accounts.Binding.{Absent, OthersFree, IsRegistry, OthersFree-Absent}
use qqflow_server.Server.Registry.{
  Index, Build, Clock, AppState, InitTask, init_finish, install_index, set_account_state_if_current,
  register, attach_watcher, update_ready, broadcast_sync,
}
use qqflow_server.Server.Registry.Deregister.{Unbound-keep}

-- The entry that a write for `qq` leaves.
record IsEntry (qq : Text) (status : AccountStatus) (count : ℕ) (a : AccountState) : Type 0 where
  qq_eq : a.qq ≡ qq
  state_eq : a.state ≡ status
  count_eq : a.message_count ≡ count

write-keep :
    (accs : List AccountState) (qq : Text) (status : AccountStatus) (count : ℕ) (err : Option Text)
    → is_registered status ≡ true
    → OthersFree qq accs
    → IsRegistry accs
    → (a : AccountState) × IsEntry qq status count a
      × (keep (λ x. is_registered x.state) (write_account_state accs qq status count err) ≡ a ∷ [])
unfolding write_account_state update_or_push
write-keep [] qq status count err reg o r = (
  record { qq = qq; state = status; message_count = count; error = err; progress = none },
  record { qq_eq = refl; state_eq = refl; count_eq = refl },
  ground (arith, reg),
)
write-keep (a ∷ accs) qq status count err reg o r = elim (Bool-cases (text_eq a.qq qq)) [
  | inl e ↦
      let same : a.qq ≡ qq = text_eq→eq a.qq qq e in
      let absent : Absent qq accs = rw (sym same) r.0 in
      let alone = Unbound-keep accs (OthersFree-Absent qq accs o.1 absent) in
      (
        record a { state = status; message_count = count; error = err },
        record { qq_eq = same; state_eq = refl; count_eq = refl },
        ground (arith, e, reg, alone),
      )
  | inr e ↦
      let (b, entry, kept) = write-keep accs qq status count err reg o.1 r.2 in
      (b, entry, ground (arith, e, o.0 e, kept))
]

keep-bound_account :
    (accs : List AccountState) (a : AccountState)
    → keep (λ x. is_registered x.state) accs ≡ a ∷ []
    → bound_account accs ≡ some a
unfolding bound_account
keep-bound_account [] a h = ground arith
keep-bound_account (x ∷ accs) a h = elim (Bool-cases (is_registered x.state)) [
  | inl e ↦ ground (arith, e, h)
  | inr e ↦ ground (arith, e, keep-bound_account accs a (ground (arith, e, h)))
]

is_ready-ready : is_ready AccountStatus.ready && true ≡ true
unfolding is_ready
is_ready-ready = refl

reg-ready : is_registered AccountStatus.ready ≡ true
reg-ready = refl

module _ (net : Broadcast) (idx : Index) where
  -- The account serves the index.
  pub record IsServing (qq : Text) (st : idx.Store) (app : AppState net idx) : Type 0 where
    pub holder : AccountState
    pub held : bound_account app.accounts ≡ some holder
    pub own : holder.qq ≡ qq
    pub ready_state : holder.state ≡ AccountStatus.ready
    pub counted : holder.message_count ≡ idx.message_count st
    pub installed : app.store ≡ st
    pub ready : app.ready ≡ true

  install_index-current :
      (task : InitTask) (st : idx.Store) (clock : Clock) (app : AppState net idx)
      → app.epoch ≡ task.epoch
      → install_index net idx task st clock app ≡ (
        true,
        broadcast_sync net idx
            (idx.watermark_group st)
            (idx.watermark_c2c st)
            clock
            (record app { store = st }),
      )
  unfolding install_index
  install_index-current task st clock app h =
      rw (install_index, (==_iff app.epoch task.epoch).1 h) refl

  set-current :
      (task : InitTask) (status : AccountStatus) (count : ℕ) (err : Option Text)
      → (app : AppState net idx) → app.epoch ≡ task.epoch
      → set_account_state_if_current net idx task status count err app ≡ (
        true,
        record app { accounts = write_account_state app.accounts task.qq status count err },
      )
  unfolding set_account_state_if_current
  set-current task status count err app h =
      rw (set_account_state_if_current, (==_iff app.epoch task.epoch).1 h) refl

  update_ready-serves :
      (qq : Text) (st : idx.Store) (app : AppState net idx) (a : AccountState)
      → IsEntry qq AccountStatus.ready (idx.message_count st) a
      → keep (λ x. is_registered x.state) app.accounts ≡ a ∷ []
      → app.store ≡ st
      → IsServing qq st (update_ready net idx app)
  unfolding update_ready all_ready
  update_ready-serves qq st app a entry kept e = record {
    holder = a;
    held = keep-bound_account app.accounts a kept;
    own = entry.qq_eq;
    ready_state = entry.state_eq;
    counted = entry.count_eq;
    installed = e;
    ready = rw kept (ap (λ s. is_ready s && true) entry.state_eq ∙ is_ready-ready);
  }

  -- An initialization whose epoch is still the current one when it finishes, where no other account
  -- holds the binding, leaves its account bound and `ready` with the number of messages of the index,
  -- the index installed and the server ready.
  pub init_finish-serves :
      (task : InitTask) (st : idx.Store) (clock : Clock) (app : AppState net idx)
      → app.epoch ≡ task.epoch
      → OthersFree task.qq app.accounts
      → IsRegistry app.accounts
      → IsServing task.qq st (init_finish net idx task (Build.built st) clock app)
  unfolding init_finish register attach_watcher
  init_finish-serves task st clock app h o r =
      let installed =
        broadcast_sync net idx (idx.watermark_group st) (idx.watermark_c2c st) clock
          (record app { store = st }) in
      let watched = attach_watcher net idx task.qq (register net idx task.qq installed) in
      let count : ℕ = idx.message_count st in
      let (a, entry, kept) =
        write-keep app.accounts task.qq AccountStatus.ready count none reg-ready o r in
      let ei = install_index-current task st clock app h in
      let es = set-current task AccountStatus.ready count none watched h in
      rw ei (rw es (update_ready-serves task.qq st _ a entry kept refl))
