-- ===== src/Server/Accounts/Binding.antt =====
-- The single account binding of server/mod.rs: who holds it, and that at most one account does.
use mathlib.Core.Path.{ap₂}
use qqflow_server.Prelude.{
  ◌≡◌, ◌≢◌, ◌⊎◌, refl, sym, ap, ◌∙◌, inl, inr, true, false, Bool-cases, Option-cases, none, some,
  List, [], ◌∷◌, arith,
}
use qqflow_server.Text.{Text, text_eq, text_eq_refl, text_eq_sym, text_eq→eq}
use qqflow_server.Server.Accounts.{
  AccountStatus, AccountState, BindOutcome, is_registered, is_running, bound_account,
  update_or_push, claim, begin_indexing, no_progress,
}

-- No entry has the number `qq`.
abbrev pub Absent : Text → List AccountState → Type 0
Absent qq [] = Unit
Absent qq (a ∷ accs) = (text_eq a.qq qq ≡ false) × Absent qq accs

-- No entry is past `awaiting_key`.
abbrev pub Unbound : List AccountState → Type 0
Unbound [] = Unit
Unbound (a ∷ accs) = (is_registered a.state ≡ false) × Unbound accs

-- No entry but those of `qq` is past `awaiting_key`.
abbrev pub OthersFree : Text → List AccountState → Type 0
OthersFree qq [] = Unit
OthersFree qq (a ∷ accs) =
    (text_eq a.qq qq ≡ false → is_registered a.state ≡ false) × OthersFree qq accs

-- Every account has one entry, and at most one entry is past `awaiting_key`.
abbrev pub IsRegistry : List AccountState → Type 0
IsRegistry [] = Unit
IsRegistry (a ∷ accs) =
    Absent a.qq accs × (is_registered a.state ≡ true → Unbound accs) × IsRegistry accs

pub Unbound-OthersFree : (qq : Text) (accs : List AccountState) → Unbound accs → OthersFree qq accs
Unbound-OthersFree qq [] u = tt
Unbound-OthersFree qq (a ∷ accs) u = (λ _. u.0, Unbound-OthersFree qq accs u.1)

pub OthersFree-Absent :
    (qq : Text) (accs : List AccountState) → OthersFree qq accs → Absent qq accs → Unbound accs
OthersFree-Absent qq [] o n = tt
OthersFree-Absent qq (a ∷ accs) o n = (o.0 n.0, OthersFree-Absent qq accs o.1 n.1)

pub bound_account-none : (accs : List AccountState) → bound_account accs ≡ none → Unbound accs
unfolding bound_account
bound_account-none [] h = tt
bound_account-none (a ∷ accs) h = elim (Bool-cases (is_registered a.state)) [
  | inl e ↦ ground arith
  | inr e ↦ (e, bound_account-none accs (ground arith))
]

pub bound_account-skip :
    (a : AccountState) (accs : List AccountState)
    → is_registered a.state ≡ false
    → bound_account (a ∷ accs) ≡ bound_account accs
unfolding bound_account
bound_account-skip a accs h = ground (arith, h)

Absent-bound_account :
    (qq : Text) (accs : List AccountState) (b : AccountState)
    → Absent qq accs
    → bound_account accs ≡ some b
    → text_eq b.qq qq ≡ false
unfolding bound_account
Absent-bound_account qq [] b n h = ground arith
Absent-bound_account qq (a ∷ accs) b n h = elim (Bool-cases (is_registered a.state)) [
  | inl e ↦ ground arith
  | inr e ↦ Absent-bound_account qq accs b n.1 (ground arith)
]

-- The holder of the binding is the only one past `awaiting_key`.
pub bound_account-OthersFree :
    (accs : List AccountState) (b : AccountState)
    → IsRegistry accs
    → bound_account accs ≡ some b
    → OthersFree b.qq accs
unfolding bound_account
bound_account-OthersFree [] b r h = tt
bound_account-OthersFree (a ∷ accs) b r h = elim (Bool-cases (is_registered a.state)) [
  | inl e ↦
      let same : a ≡ b = ground arith in
      (
        λ n. absurd (ground (arith, ap AccountState.qq same, text_eq_refl a.qq)),
        Unbound-OthersFree b.qq accs (r.1 e),
      )
  | inr e ↦ (λ _. e, bound_account-OthersFree accs b r.2 (ground arith))
]

module _ (qq : Text) (f : AccountState → AccountState) (new : AccountState) where
  update-Absent :
      (other : Text) (accs : List AccountState)
      → ((a : AccountState) → (f a).qq ≡ a.qq)
      → text_eq new.qq other ≡ false
      → Absent other accs
      → Absent other (update_or_push qq f new accs)
  unfolding update_or_push
  update-Absent other [] keeps h n = (h, tt)
  update-Absent other (a ∷ accs) keeps h n = elim (Bool-cases (text_eq a.qq qq)) [
    | inl e ↦ rw e (ground (arith, keeps a), n.1)
    | inr e ↦ rw e (n.0, update-Absent other accs keeps h n.1)
  ]

  pub update-IsRegistry :
      (accs : List AccountState)
      → ((a : AccountState) → (f a).qq ≡ a.qq)
      → new.qq ≡ qq
      → OthersFree qq accs
      → IsRegistry accs
      → IsRegistry (update_or_push qq f new accs)
  unfolding update_or_push
  update-IsRegistry [] keeps h o r = (tt, λ _. tt, tt)
  update-IsRegistry (a ∷ accs) keeps h o r = elim (Bool-cases (text_eq a.qq qq)) [
    | inl e ↦
        let same : a.qq ≡ qq = text_eq→eq a.qq qq e in
        let absent : Absent qq accs = rw (sym same) r.0 in
        rw e (rw (keeps a) r.0, λ _. OthersFree-Absent qq accs o.1 absent, r.2)
    | inr e ↦ rw e (
      update-Absent a.qq accs keeps (rw h (text_eq_sym a.qq qq e)) r.0,
      λ e'. ground (arith, o.0 e),
      update-IsRegistry accs keeps h o.1 r.2,
    )
  ]

-- The four branches of `begin_indexing`.
pub begin-free :
    (accs : List AccountState) (qq : Text)
    → bound_account accs ≡ none
    → begin_indexing accs qq ≡ (BindOutcome.bound, claim accs qq)
unfolding begin_indexing
begin-free accs qq free = rw (begin_indexing, free) refl

pub begin-occupied :
    (accs : List AccountState) (qq : Text) (b : AccountState)
    → bound_account accs ≡ some b
    → text_eq b.qq qq ≡ false
    → begin_indexing accs qq ≡ (BindOutcome.occupied b.qq b.state, accs)
unfolding begin_indexing
begin-occupied accs qq b held other = rw (begin_indexing, held, other) refl

pub begin-running :
    (accs : List AccountState) (qq : Text) (b : AccountState)
    → bound_account accs ≡ some b
    → text_eq b.qq qq ≡ true
    → is_running b.state ≡ true
    → begin_indexing accs qq ≡ (BindOutcome.same_qq b.state, accs)
unfolding begin_indexing
begin-running accs qq b held own running = ground arith

pub begin-retry :
    (accs : List AccountState) (qq : Text) (b : AccountState)
    → bound_account accs ≡ some b
    → text_eq b.qq qq ≡ true
    → is_running b.state ≡ false
    → begin_indexing accs qq ≡ (BindOutcome.bound, claim accs qq)
unfolding begin_indexing
begin-retry accs qq b held own failed = ground arith

claim-IsRegistry :
    (accs : List AccountState) (qq : Text)
    → OthersFree qq accs
    → IsRegistry accs
    → IsRegistry (claim accs qq)
unfolding claim
claim-IsRegistry accs qq = update-IsRegistry qq _ _ accs (λ a. refl) refl

-- Either the binding is claimed, which no other account holds, or nothing changes.
Claimed : List AccountState → Text → Type 0
Claimed accs qq = (begin_indexing accs qq ≡ (BindOutcome.bound, claim accs qq)) × OthersFree qq accs

Refused : List AccountState → Text → Type 0
Refused accs qq =
    ((begin_indexing accs qq).0 ≢ BindOutcome.bound) × ((begin_indexing accs qq).1 ≡ accs)

begin_indexing-cases :
    (accs : List AccountState) (qq : Text) → IsRegistry accs → Claimed accs qq ⊎ Refused accs qq
unfolding Claimed Refused
begin_indexing-cases accs qq r = elim (Option-cases (bound_account accs)) [
  | inl free ↦
      inl (begin-free accs qq free, Unbound-OthersFree qq accs (bound_account-none accs free))
  | inr (b, held) ↦ elim (Bool-cases (text_eq b.qq qq)) [
    | inr other ↦ let e = begin-occupied accs qq b held other in inr (ground (arith, e), rw e refl)
    | inl own ↦ elim (Bool-cases (is_running b.state)) [
      | inl running ↦
          let e = begin-running accs qq b held own running in inr (ground (arith, e), rw e refl)
      | inr failed ↦
          let same : b.qq ≡ qq = text_eq→eq b.qq qq own in
          inl (
            begin-retry accs qq b held own failed,
            rw (sym same) (bound_account-OthersFree accs b r held),
          )
    ]
  ]
]

-- `begin_indexing` keeps one entry for each account and at most one account past `awaiting_key`.
pub begin_indexing-IsRegistry :
    (accs : List AccountState) (qq : Text) → IsRegistry accs → IsRegistry (begin_indexing accs qq).1
unfolding Claimed Refused
begin_indexing-IsRegistry accs qq r = elim (begin_indexing-cases accs qq r) [
  | inl (e, others) ↦ rw e (claim-IsRegistry accs qq others r)
  | inr (_, e) ↦ rw e r
]

-- The claimed entry of an account that no other account stands in the way of.
IsClaimed : Text → AccountState → Type 0
IsClaimed qq a = (a.qq ≡ qq) × (a.state ≡ AccountStatus.indexing)

claim-bound_account :
    (accs : List AccountState) (qq : Text)
    → OthersFree qq accs
    → (a : AccountState) × IsClaimed qq a × (bound_account (claim accs qq) ≡ some a)
unfolding claim update_or_push bound_account IsClaimed
claim-bound_account [] qq o = (_, (refl, refl), refl)
claim-bound_account (a ∷ accs) qq o = elim (Bool-cases (text_eq a.qq qq)) [
  | inl e ↦ (
    record a {
      state = AccountStatus.indexing;
      message_count = 0;
      error = none;
      progress = some no_progress;
    },
    (text_eq→eq a.qq qq e, refl),
    rw e refl,
  )
  | inr e ↦
      let (b, claimed, held) = claim-bound_account accs qq o.1 in
      (b, claimed, rw e (bound_account-skip a (claim accs qq) (o.0 e) ∙ held))
]

-- While the claim of the first stands, the second is told who holds the binding.
begin-second :
    (accs : List AccountState) (first second : Text)
    → OthersFree first accs
    → text_eq first second ≡ false
    → begin_indexing (claim accs first) second
      ≡ (BindOutcome.occupied first AccountStatus.indexing, claim accs first)
unfolding IsClaimed
begin-second accs first second others differ =
    let (b, (own, indexing), held) = claim-bound_account accs first others in
    begin-occupied (claim accs first) second b held (rw own differ)
    ∙ ap₂ (λ q s. (BindOutcome.occupied q s, claim accs first)) own indexing

-- Of two registrations of different accounts exactly one wins, the first: where no account holds
-- the binding, or the first one's own failed registration does, the first is bound, and the second is
-- told that the first account holds the binding and is indexing, and changes nothing.
pub begin_indexing-exclusive :
    (accs : List AccountState) (first second : Text)
    → IsRegistry accs
    → ((b : AccountState)
        → bound_account accs ≡ some b
        → (text_eq b.qq first ≡ true) × (is_running b.state ≡ false))
    → text_eq first second ≡ false
    → ((begin_indexing accs first).0 ≡ BindOutcome.bound)
      × (begin_indexing (begin_indexing accs first).1 second
          ≡ (BindOutcome.occupied first AccountStatus.indexing, (begin_indexing accs first).1))
begin_indexing-exclusive accs first second r free differ =
    elim (Option-cases (bound_account accs)) [
      | inl none_held ↦
          let others = Unbound-OthersFree first accs (bound_account-none accs none_held) in
          rw (begin-free accs first none_held) (refl, begin-second accs first second others differ)
      | inr (b, held) ↦
          let (own, failed) = free b held in
          let same : b.qq ≡ first = text_eq→eq b.qq first own in
          let others : OthersFree first accs =
            rw (sym same) (bound_account-OthersFree accs b r held) in
          rw (begin-retry accs first b held own failed)
            (refl, begin-second accs first second others differ)
    ]
