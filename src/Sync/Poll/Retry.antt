-- ===== src/Sync/Poll/Retry.antt =====
-- sync/mod.rs: a pass that fails is tried again.
use qqflow_server.Prelude.{ℕ, ◌≡◌, refl, Bool, true, Option-cases, inl, inr, Option, none, arith}
use qqflow_server.Prelude.Int.{ℤ}
use qqflow_server.PathSafe.Contained.{Platform}
use qqflow_server.Sync.Poll.{AccountSync, Select, changed, read_phase, poll_once}

-- A pass that fails leaves the store, its watermarks included, as it was, and the next question
-- whether anything changed answers yes, whatever the state of the reader and of the WAL.
pub poll_once-retries :
    (platform : Platform) (conn : Option Select) (now : ℤ) (acc : AccountSync) (is_open : Bool)
    (snap : Option (ℕ × ℕ))
    → (poll_once platform conn now acc).0 ≡ none
    → let after = (poll_once platform conn now acc).1 in
      (after.store ≡ acc.store) × ((changed is_open snap after).0 ≡ true)
unfolding poll_once changed
poll_once-retries platform conn now acc is_open snap failed =
    elim (Option-cases (read_phase conn acc.store)) [
      | inl e ↦ rw (poll_once, e) (refl, refl)
      | inr (read, e) ↦ ground (arith, rw (poll_once, e) at failed)
    ]
