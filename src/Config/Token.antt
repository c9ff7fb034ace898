-- ===== src/Config/Token.antt =====
-- src/config.rs: the API token in the credential store, which is an interface.
pub mod Stable
use qqflow_server.Prelude.{
  ℕ, ◌+◌, ◌/◌, ◌%◌, Bool, true, false, Option, none, some, List, [], ◌∷◌, ltb, if◌then◌else◌,
}
use qqflow_server.Text.{Text, is_empty}
use qqflow_server.Server.Requests.{Result, ok, err}

-- What `get_password` finds: a password, no entry, or an error of the store.
pub data Password : Type 0 where
  password : Text → Password
  no_entry : Password
  unavailable : Text → Password

-- The calls of the library `keyring`, on a state `K` of the credential store.
pub record Keyring (K : Type 0) : Type 0 where
  pub entry_error : K → Option Text
  pub get_password : K → Password
  pub set_password : Text → K → Result K Text

abbrev lower_hex : ℕ → ℕ
lower_hex d = if ltb d 10 then b'0' + d else 87 + d

-- `{b:02x}` of every byte; the bytes are those of the random source.
unfoldable pub new_token : List ℕ → Text
new_token [] = []
new_token (b ∷ bytes) = lower_hex (b / 16) ∷ lower_hex (b % 16) ∷ new_token bytes

-- A new token once it is stored, or the error of the store.
abbrev pub with_stored : {K : Type 0} → Text → Result K Text → Result (Text × K) Text
with_stored token (ok k) = ok (token, k)
with_stored token (err e) = err e

module _ {K : Type 0} (keyring : Keyring K) where
  -- The token, with the state of the store: a token of the session where the store cannot be read.
  unfoldable pub load_or_create_token : List ℕ → K → Result (Text × K) Text
  load_or_create_token bytes k = elim (keyring.entry_error k) [
    | some e ↦ err e
    | none ↦ elim (keyring.get_password k) [
      | password t ↦
          if is_empty t
          then with_stored (new_token bytes) (keyring.set_password (new_token bytes) k)
          else ok (t, k)
      | no_entry ↦ with_stored (new_token bytes) (keyring.set_password (new_token bytes) k)
      | unavailable e ↦ ok (new_token bytes, k)
    ]
  ]

  unfoldable pub show_token : K → Result (Option Text) Text
  show_token k = elim (keyring.entry_error k) [
    | some e ↦ err e
    | none ↦ elim (keyring.get_password k) [
      | password t ↦ if is_empty t then ok none else ok (some t)
      | no_entry ↦ ok none
      | unavailable e ↦ err e
    ]
  ]
