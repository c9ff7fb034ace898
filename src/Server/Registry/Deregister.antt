-- ===== src/Server/Registry/Deregister.antt =====
-- What a deregistration leaves behind.
use qqflow_server.Prelude.{
  ℕ, ◌+◌, ◌≡◌, refl, ap, ◌∙◌, sym, true, false, not, Bool-cases, inl, inr, Option, none, some, List,
  [], ◌∷◌, keep, arith,
}
use qqflow_server.Prelude.Int.{pos}
use qqflow_server.Text.{Text, text_eq, text_eq_refl, text_eq→eq, is_empty}
use qqflow_server.Sync.Events
use qqflow_server.Sync.History.{
  Broadcast, HistoryBuf, EventBus, append, clear_items, pop_front_to_max, publish,
}
use qqflow_server.Server.Accounts.{
  AccountState, is_registered, bound_account, all_ready, reset_first, remove_account,
}
use qqflow_server.Server.Accounts.Binding.{
  Absent, Unbound, OthersFree, IsRegistry, bound_account-OthersFree, OthersFree-Absent,
}
use qqflow_server.Server.Registry.{
  Index, Clock, AppState, DeregisterOutcome, deregister_account, retire, reset_entry, is_scanned,
  unregister, clear_store, clear_history, bump_generation, update_ready, broadcast_sync,
}

reset_first-Unbound :
    (qq : Text) (accs : List AccountState)
    → OthersFree qq accs
    → IsRegistry accs
    → Unbound (reset_first qq accs)
unfolding reset_first
reset_first-Unbound qq [] o r = tt
reset_first-Unbound qq (a ∷ accs) o r = elim (Bool-cases (text_eq a.qq qq)) [
  | inl e ↦
      let absent : Absent qq accs = rw (sym (text_eq→eq a.qq qq e)) r.0 in
      rw e (refl, OthersFree-Absent qq accs o.1 absent)
  | inr e ↦ rw e (o.0 e, reset_first-Unbound qq accs o.1 r.2)
]

remove_account-Unbound :
    (qq : Text) (accs : List AccountState) → OthersFree qq accs → Unbound (remove_account qq accs)
unfolding remove_account
remove_account-Unbound qq [] o = tt
remove_account-Unbound qq (a ∷ accs) o = elim (Bool-cases (text_eq a.qq qq)) [
  | inl e ↦ rw e (remove_account-Unbound qq accs o.1)
  | inr e ↦ rw e (o.0 e, remove_account-Unbound qq accs o.1)
]

Unbound-bound_account : (accs : List AccountState) → Unbound accs → bound_account accs ≡ none
unfolding bound_account
Unbound-bound_account [] u = refl
Unbound-bound_account (a ∷ accs) u = ground (arith, u.0, Unbound-bound_account accs u.1)

pub Unbound-keep :
    (accs : List AccountState) → Unbound accs → keep (λ a. is_registered a.state) accs ≡ []
Unbound-keep [] u = refl
Unbound-keep (a ∷ accs) u = ground (arith, u.0, Unbound-keep accs u.1)

Unbound-all_ready : (accs : List AccountState) → Unbound accs → all_ready accs ≡ false
unfolding all_ready
Unbound-all_ready accs u = rw (Unbound-keep accs u) refl

append-cleared :
    (e : Events.Event) (now : ℕ) (h : HistoryBuf)
    → (append e now (clear_items h)).0 ≡ record {
      items = record { id = h.last_id + 1; at = now; event = e } ∷ [];
      last_id = h.last_id + 1;
    }
unfolding append clear_items pop_front_to_max
append-cleared e now h = refl

module _ (net : Broadcast) (idx : Index) where
  -- What a client finds after the deregistration: nothing bound, an empty index, not ready, a new
  -- epoch and generation, and a replay that holds the zero baseline alone, under the next id.
  pub record IsRetired (before after : AppState net idx) (clock : Clock) : Type 0 where
    pub unbound : bound_account after.accounts ≡ none
    pub emptied : after.store ≡ idx.default
    pub unready : after.ready ≡ false
    pub next_epoch : after.epoch ≡ before.epoch + 1
    pub next_generation : after.generation ≡ before.generation + 1
    pub last_id : after.bus.history.last_id ≡ before.bus.history.last_id + 1
    pub replayed :
        after.bus.history.items
        ≡ record {
          id = before.bus.history.last_id + 1;
          at = clock.now;
          event = Events.sync (pos 0) (pos 0) clock.timestamp;
        }
          ∷ []

  -- What the reset of the entry leaves as it is.
  record KeepsRest (before after : AppState net idx) : Type 0 where
    store : after.store ≡ before.store
    bus : after.bus ≡ before.bus
    epoch : after.epoch ≡ before.epoch
    generation : after.generation ≡ before.generation

  reset_entry-KeepsRest :
      (qq : Text) (app : AppState net idx) → KeepsRest app (reset_entry net idx qq app)
  unfolding reset_entry
  reset_entry-KeepsRest qq app = elim (Bool-cases (is_scanned net idx qq app)) [
    | inl e ↦ rw e (record { store = refl; bus = refl; epoch = refl; generation = refl })
    | inr e ↦ rw e (record { store = refl; bus = refl; epoch = refl; generation = refl })
  ]

  reset_entry-Unbound :
      (qq : Text) (app : AppState net idx)
      → OthersFree qq app.accounts
      → IsRegistry app.accounts
      → Unbound (reset_entry net idx qq app).accounts
  unfolding reset_entry
  reset_entry-Unbound qq app o r = elim (Bool-cases (is_scanned net idx qq app)) [
    | inl e ↦ rw e (reset_first-Unbound qq app.accounts o r)
    | inr e ↦ rw e (remove_account-Unbound qq app.accounts o)
  ]

  -- The state of `retire` in front of the reset of the entry.
  purged : Text → Clock → AppState net idx → AppState net idx
  purged qq clock app = broadcast_sync net idx (pos 0) (pos 0) clock (
      bump_generation net idx
        (clear_history net idx (clear_store net idx (unregister net idx qq app))))

  purged-history :
      (qq : Text) (clock : Clock) (app : AppState net idx)
      → (purged qq clock app).bus.history ≡ record {
        items =
            record {
              id = app.bus.history.last_id + 1;
              at = clock.now;
              event = Events.sync (pos 0) (pos 0) clock.timestamp;
            }
            ∷ [];
        last_id = app.bus.history.last_id + 1;
      }
  unfolding purged unregister clear_store clear_history bump_generation publish
  purged-history qq clock app = append-cleared _ clock.now app.bus.history

  retire-IsRetired :
      (qq : Text) (clock : Clock) (app : AppState net idx)
      → OthersFree qq app.accounts
      → IsRegistry app.accounts
      → IsRetired app (retire net idx qq clock app) clock
  unfolding retire unregister clear_store clear_history bump_generation update_ready purged
  retire-IsRetired qq clock app o r =
      let mid = purged qq clock app in
      let kept : KeepsRest mid (reset_entry net idx qq mid) = reset_entry-KeepsRest qq mid in
      let free : Unbound (reset_entry net idx qq mid).accounts = reset_entry-Unbound qq mid o r in
      let history = ap EventBus.history kept.bus ∙ purged-history qq clock app in
      record {
        unbound = Unbound-bound_account _ free;
        emptied = kept.store;
        unready = Unbound-all_ready _ free;
        next_epoch = kept.epoch;
        next_generation = kept.generation;
        last_id = ap HistoryBuf.last_id history;
        replayed = ap HistoryBuf.items history;
      }

  -- Deregistering the account that holds the binding answers `deregistered` with the state it had and
  -- whether there was an index, and leaves nothing bound, an empty index, `ready` unset, the next epoch
  -- and generation, and as replay only the zero baseline, whose id goes on from the last one.
  pub deregister_account-IsRetired :
      (app : AppState net idx) (b : AccountState) (purge : Option (List Text → ℕ)) (clock : Clock)
      → IsRegistry app.accounts
      → bound_account app.accounts ≡ some b
      → let (outcome, after) = deregister_account net idx b.qq purge clock app in
        (outcome
          ≡ DeregisterOutcome.deregistered b.state
              (not (is_empty (idx.talkers app.store)))
              (elim purge [ none ↦ 0 | some removed ↦ removed (idx.talkers app.store) ]))
        × IsRetired app after clock
  unfolding deregister_account
  deregister_account-IsRetired app b purge clock r held =
      let own : text_eq b.qq b.qq ≡ true = text_eq_refl b.qq in
      rw (deregister_account, held, own)
        (refl, retire-IsRetired b.qq clock app (bound_account-OthersFree app.accounts b r held) r)

  -- While an account holds the binding, the deregistration of another one is answered with the holder
  -- and its state, and changes nothing; and once the holder is deregistered, a deregistration of any
  -- account, the former holder included, is answered with `not_registered` and changes nothing, its
  -- epoch, generation and replay included.
  pub deregister_account-refused :
      (app : AppState net idx) (b : AccountState) (other again : Text)
      (purge purge' : Option (List Text → ℕ)) (clock clock' : Clock)
      → IsRegistry app.accounts
      → bound_account app.accounts ≡ some b
      → text_eq b.qq other ≡ false
      → let after = (deregister_account net idx b.qq purge clock app).1 in
        (deregister_account net idx other purge clock app
          ≡ (DeregisterOutcome.qq_mismatch b.qq b.state, app))
        × (deregister_account net idx again purge' clock' after
            ≡ (DeregisterOutcome.not_registered, after))
  unfolding deregister_account
  deregister_account-refused app b other again purge purge' clock clock' r held differ =
      let retired = (deregister_account-IsRetired app b purge clock r held).1 in
      (rw (deregister_account, held, differ) refl, rw (deregister_account, retired.unbound) refl)
