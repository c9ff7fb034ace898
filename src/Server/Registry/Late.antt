-- ===== src/Server/Registry/Late.antt =====
-- The registry across a deregistration, and an initialization that first runs after it.
use qqflow_server.Prelude.{
  ℕ, ◌≡◌, refl, Bool-cases, Option-cases, ◌⊎◌, inl, inr, Option, some, List, [], ◌∷◌, arith,
}
use qqflow_server.Text.{Text, text_eq}
use qqflow_server.Sync.History.{Broadcast}
use qqflow_server.Server.Accounts.{AccountState, bound_account, reset_first, remove_account}
use qqflow_server.Server.Accounts.Binding.{
  Absent, Unbound, IsRegistry, bound_account-none, Unbound-OthersFree,
}
use qqflow_server.Server.Registry.{
  Index, Build, Clock, AppState, init_start, init_finish, deregister_account, retire, reset_entry,
  is_scanned, update_ready, unregister, clear_store, clear_history, bump_generation,
}
use qqflow_server.Server.Registry.Deregister.{deregister_account-IsRetired}
use qqflow_server.Server.Registry.Init.{IsServing, init_finish-serves}

reset_first-Absent :
    (qq other : Text) (accs : List AccountState)
    → Absent other accs
    → Absent other (reset_first qq accs)
unfolding reset_first
reset_first-Absent qq other [] n = tt
reset_first-Absent qq other (a ∷ accs) n = elim (Bool-cases (text_eq a.qq qq)) [
  | inl e ↦ rw e n
  | inr e ↦ rw e (n.0, reset_first-Absent qq other accs n.1)
]

remove_account-Absent :
    (qq other : Text) (accs : List AccountState)
    → Absent other accs
    → Absent other (remove_account qq accs)
unfolding remove_account
remove_account-Absent qq other [] n = tt
remove_account-Absent qq other (a ∷ accs) n = elim (Bool-cases (text_eq a.qq qq)) [
  | inl e ↦ rw e (remove_account-Absent qq other accs n.1)
  | inr e ↦ rw e (n.0, remove_account-Absent qq other accs n.1)
]

remove_account-Unbound_tail :
    (qq : Text) (accs : List AccountState) → Unbound accs → Unbound (remove_account qq accs)
unfolding remove_account
remove_account-Unbound_tail qq [] u = tt
remove_account-Unbound_tail qq (a ∷ accs) u = elim (Bool-cases (text_eq a.qq qq)) [
  | inl e ↦ rw e (remove_account-Unbound_tail qq accs u.1)
  | inr e ↦ rw e (u.0, remove_account-Unbound_tail qq accs u.1)
]

reset_first-Unbound_tail :
    (qq : Text) (accs : List AccountState) → Unbound accs → Unbound (reset_first qq accs)
unfolding reset_first
reset_first-Unbound_tail qq [] u = tt
reset_first-Unbound_tail qq (a ∷ accs) u = elim (Bool-cases (text_eq a.qq qq)) [
  | inl e ↦ rw e (refl, u.1)
  | inr e ↦ rw e (u.0, reset_first-Unbound_tail qq accs u.1)
]

reset_first-IsRegistry :
    (qq : Text) (accs : List AccountState) → IsRegistry accs → IsRegistry (reset_first qq accs)
unfolding reset_first
reset_first-IsRegistry qq [] r = tt
reset_first-IsRegistry qq (a ∷ accs) r = elim (Bool-cases (text_eq a.qq qq)) [
  | inl e ↦ rw e (r.0, λ h. ground arith, r.2)
  | inr e ↦ rw e (
    reset_first-Absent qq a.qq accs r.0,
    λ h. reset_first-Unbound_tail qq accs (r.1 h),
    reset_first-IsRegistry qq accs r.2,
  )
]

remove_account-IsRegistry :
    (qq : Text) (accs : List AccountState) → IsRegistry accs → IsRegistry (remove_account qq accs)
unfolding remove_account
remove_account-IsRegistry qq [] r = tt
remove_account-IsRegistry qq (a ∷ accs) r = elim (Bool-cases (text_eq a.qq qq)) [
  | inl e ↦ rw e (remove_account-IsRegistry qq accs r.2)
  | inr e ↦ rw e (
    remove_account-Absent qq a.qq accs r.0,
    λ h. remove_account-Unbound_tail qq accs (r.1 h),
    remove_account-IsRegistry qq accs r.2,
  )
]

module _ (net : Broadcast) (idx : Index) where
  reset_entry-IsRegistry :
      (qq : Text) (app : AppState net idx)
      → IsRegistry app.accounts
      → IsRegistry (reset_entry net idx qq app).accounts
  unfolding reset_entry
  reset_entry-IsRegistry qq app r = elim (Bool-cases (is_scanned net idx qq app)) [
    | inl e ↦ rw e (reset_first-IsRegistry qq app.accounts r)
    | inr e ↦ rw e (remove_account-IsRegistry qq app.accounts r)
  ]

  retire-IsRegistry :
      (qq : Text) (clock : Clock) (app : AppState net idx)
      → IsRegistry app.accounts
      → IsRegistry (retire net idx qq clock app).accounts
  unfolding retire update_ready unregister clear_store clear_history bump_generation
  retire-IsRegistry qq clock app r = reset_entry-IsRegistry qq _ r

  deregister_account-cases :
      (app : AppState net idx) (qq : Text) (purge : Option (List Text → ℕ)) (clock : Clock)
      → let after = (deregister_account net idx qq purge clock app).1 in
        (after ≡ app) ⊎ (after ≡ retire net idx qq clock app)
  unfolding deregister_account
  deregister_account-cases app qq purge clock = elim (Option-cases (bound_account app.accounts)) [
    | inl e ↦ inl (rw (deregister_account, e) refl)
    | inr (b, e) ↦ elim (Bool-cases (text_eq b.qq qq)) [
      | inl own ↦ inr (rw (deregister_account, e, own) refl)
      | inr other ↦ inl (rw (deregister_account, e, other) refl)
    ]
  ]

  -- A deregistration keeps one entry for each account and at most one account past `awaiting_key`.
  pub deregister_account-IsRegistry :
      (app : AppState net idx) (qq : Text) (purge : Option (List Text → ℕ)) (clock : Clock)
      → IsRegistry app.accounts
      → IsRegistry (deregister_account net idx qq purge clock app).1.accounts
  deregister_account-IsRegistry app qq purge clock r =
      elim (deregister_account-cases app qq purge clock) [
        | inl e ↦ rw e r
        | inr e ↦ rw e (retire-IsRegistry qq clock app r)
      ]

  -- An initialization of the account whose task first runs after the deregistration is not cancelled:
  -- it reads the new epoch, installs its index and leaves the deregistered account bound and `ready`.
  pub deregister_account-late_init :
      (app : AppState net idx) (b : AccountState) (purge : Option (List Text → ℕ)) (clock : Clock)
      → (st : idx.Store) → IsRegistry app.accounts
      → bound_account app.accounts ≡ some b
      → let after = (deregister_account net idx b.qq purge clock app).1 in
        IsServing net idx b.qq st
          (init_finish net idx (init_start net idx b.qq after) (Build.built st) clock after)
  unfolding init_start
  deregister_account-late_init app b purge clock st r held =
      let after = (deregister_account net idx b.qq purge clock app).1 in
      let retired = (deregister_account-IsRetired net idx app b purge clock r held).1 in
      let free : Unbound after.accounts = bound_account-none after.accounts retired.unbound in
      init_finish-serves net idx (record { qq = b.qq; epoch = after.epoch }) st clock after refl
        (Unbound-OthersFree b.qq after.accounts free)
        (deregister_account-IsRegistry app b.qq purge clock r)
