-- ===== src/Config/Token/Stable.antt =====
-- src/config.rs: the token of the server is the one that `--show-token` prints, until it is removed.
use mathlib.Core.Path.{subst}
use qqflow_server.Prelude.{
  ℕ, ◌≤◌, ◌≡◌, refl, ap, false, Bool-cases, Option-cases, inl, inr, none, some, List, [], ◌∷◌,
  length, arith,
}
use qqflow_server.Text.{Text, is_empty}
use qqflow_server.Server.Requests.{Result, ok, err}
use qqflow_server.Config.Token.{
  Password, password, no_entry, unavailable, Keyring, new_token, with_stored, load_or_create_token,
  show_token,
}

abbrev of_ok : {A : Type 0} → Result A Text → A → A
of_ok (ok a) b = a
of_ok (err e) b = b

module _ {K : Type 0} (keyring : Keyring K) where
  -- The store can be opened, and has the token.
  abbrev pub Holds : Text → K → Type 0
  Holds t k =
      (keyring.entry_error k ≡ none) × (keyring.get_password k ≡ password t) × (is_empty t ≡ false)

  -- What is written can be read back.
  abbrev ReadsBack : Type 0
  ReadsBack =
      (s : Text) (c c' : K)
      → keyring.set_password s c ≡ ok c'
      → (keyring.entry_error c' ≡ none) × (keyring.get_password c' ≡ password s)

  token_filled : (bytes : List ℕ) → 1 ≤ length bytes → is_empty (new_token bytes) ≡ false
  unfolding new_token
  token_filled [] h = absurd (omega (arith, h))
  token_filled (b ∷ bytes) h = refl

  held_runs :
      (t : Text) (k : K) (bytes : List ℕ)
      → Holds t k
      → (load_or_create_token keyring bytes k ≡ ok (t, k)) × (show_token keyring k ≡ ok (some t))
  unfolding load_or_create_token show_token
  held_runs t k bytes (opened, found, filled) = (
    rw (load_or_create_token, opened, found, filled) refl,
    rw (show_token, opened, found, filled) refl,
  )

  stored :
      (bytes : List ℕ) (t : Text) (k k' : K)
      → ReadsBack
      → 1 ≤ length bytes
      → (r : Result K Text) → keyring.set_password (new_token bytes) k ≡ r
      → with_stored (new_token bytes) r ≡ ok (t, k')
      → Holds t k'
  stored bytes t k k' law filled (ok c) wrote h =
      let read = law (new_token bytes) k c wrote in
      let token : new_token bytes ≡ t =
        ap (λ r. (of_ok {A = Text × K} r (new_token bytes, c)).0) h in
      let state : c ≡ k' = ap (λ r. (of_ok {A = Text × K} r (new_token bytes, c)).1) h in
      subst (Holds t) state
        (subst (λ u. Holds u c) token (read.0, read.1, token_filled bytes filled))
  stored bytes t k k' law filled (err e) wrote h = absurd (cc h)

  found :
      (bytes : List ℕ) (t : Text) (k k' : K)
      → ReadsBack
      → 1 ≤ length bytes
      → keyring.entry_error k ≡ none
      → (p : Password) → keyring.get_password k ≡ p
      → ((e : Text) → ¬ (p ≡ unavailable e))
      → load_or_create_token keyring bytes k ≡ ok (t, k')
      → Holds t k'
  unfolding load_or_create_token
  found bytes t k k' law filled opened (password s) has readable h =
      elim (Bool-cases (is_empty s)) [
        | inl e ↦
            stored bytes t k k' law filled (keyring.set_password (new_token bytes) k) refl
              (rw (load_or_create_token, opened, has, e) at h)
        | inr e ↦
            let same = rw (load_or_create_token, opened, has, e) at h in
            let token : s ≡ t = ap (λ r. (of_ok {A = Text × K} r (s, k)).0) same in
            let state : k ≡ k' = ap (λ r. (of_ok {A = Text × K} r (s, k)).1) same in
            subst (Holds t) state (subst (λ u. Holds u k) token (opened, has, e))
      ]
  found bytes t k k' law filled opened no_entry has readable h =
      stored bytes t k k' law filled (keyring.set_password (new_token bytes) k) refl
        (rw (load_or_create_token, opened, has) at h)
  found bytes t k k' law filled opened (unavailable e) has readable h = absurd (readable e refl)

  -- Where the credential store can be read, and reads back what is written to it, a token that the
  -- server takes at its start is kept: the next start takes the same one, whatever the random
  -- source gives then, and `--show-token` prints it.
  pub load_or_create_token-show_token :
      (bytes bytes' : List ℕ) (t : Text) (k k' : K)
      → ((s : Text) (c c' : K)
          → keyring.set_password s c ≡ ok c'
          → (keyring.entry_error c' ≡ none) × (keyring.get_password c' ≡ password s))
      → 1 ≤ length bytes
      → ((e : Text) → ¬ (keyring.get_password k ≡ unavailable e))
      → load_or_create_token keyring bytes k ≡ ok (t, k')
      → (load_or_create_token keyring bytes' k' ≡ ok (t, k'))
        × (show_token keyring k' ≡ ok (some t))
  unfolding load_or_create_token
  load_or_create_token-show_token bytes bytes' t k k' law filled readable h =
      elim (Option-cases (keyring.entry_error k)) [
        | inl opened ↦
            held_runs t k' bytes'
              (found bytes t k k' law filled opened (keyring.get_password k) refl readable h)
        | inr (e, closed) ↦ absurd (cc (rw (load_or_create_token, closed) at h))
      ]
