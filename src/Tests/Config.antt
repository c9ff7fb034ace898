-- ===== src/Tests/Config.antt =====
-- Concrete runs for src/config.rs.
use qqflow_server.Prelude.{◌≡◌, refl, sym, ap, true, Option, none, some, List, [], ◌∷◌, arith}
use qqflow_server.Text.{Text, utf8}
use qqflow_server.Text.Integer.{parse_below}
use qqflow_server.Server.Requests.{Result, ok, err}
use qqflow_server.Config.{Config, default_config, flag_as_value, parse_args}
use qqflow_server.Config.Valid.{IsConfig, parse_args-IsConfig}
use qqflow_server.Config.Token.{
  Password, password, no_entry, Keyring, load_or_create_token, show_token,
}
use qqflow_server.Config.Token.Stable.{load_or_create_token-show_token}
use qqflow_server.Config.Args.{to_args, CanWrite, parse_args-to_args}

abbrev lan : Config
lan = record default_config {
  port = 8080;
  host = utf8 "0.0.0.0";
  base_url = some (utf8 "http://192.168.1.10:8080");
  show_token = true;
}

abbrev lan_args : List Text
lan_args =
    utf8 "--port=8080"
    ∷ utf8 "--host"
    ∷ utf8 "0.0.0.0"
    ∷ utf8 "--show-token"
    ∷ utf8 "--base-url"
    ∷ utf8 "http://192.168.1.10:8080"
    ∷ []

lan_parsed : parse_args lan_args ≡ ok (some lan)
unfolding parse_args parse_below
lan_parsed = refl

-- `--host --log debug` names the flag whose value is missing.
host_without_value :
    parse_args (utf8 "--host" ∷ utf8 "--log" ∷ utf8 "debug" ∷ [])
    ≡ err (flag_as_value (utf8 "--host") (utf8 "--log"))
unfolding parse_args
host_without_value = refl

parse_args-IsConfig_example : IsConfig lan
parse_args-IsConfig_example = parse_args-IsConfig lan_args lan lan_parsed

lan-CanWrite : CanWrite lan
lan-CanWrite = record {
  valid = record {
    port_fits = omega arith;
    log_known = refl;
    format_known = refl;
    debounce_fits = omega arith;
    fallback_fits = omega arith;
    no_token = refl;
  };
  host_value = refl;
  dir_value = refl;
  url_value = refl;
}

parse_args-to_args_example : parse_args (to_args lan) ≡ ok (some lan)
parse_args-to_args_example = parse_args-to_args lan lan-CanWrite

-- A credential store that holds one password.
abbrev kept_password : Option Text → Password
kept_password none = no_entry
kept_password (some t) = password t

abbrev one_password : Keyring (Option Text)
one_password = record {
  entry_error = λ k. none;
  get_password = kept_password;
  set_password = λ t k. ok (some t);
}

abbrev result_or : Option Text → Result (Option Text) Text → Option Text
result_or d (ok k) = k
result_or d (err e) = d

written_back :
    (s : Text) (c c' : Option Text)
    → one_password.set_password s c ≡ ok c'
    → (one_password.entry_error c' ≡ none) × (one_password.get_password c' ≡ password s)
written_back s c c' h = (refl, ap (λ r. kept_password (result_or (some s) r)) (sym h))

first_start :
    load_or_create_token one_password (0x1f ∷ 0xa0 ∷ []) none ≡ ok (utf8 "1fa0", some (utf8 "1fa0"))
unfolding load_or_create_token qqflow_server.Config.Token.new_token
first_start = refl

load_or_create_token-show_token_example :
    (load_or_create_token one_password (7 ∷ []) (some (utf8 "1fa0"))
      ≡ ok (utf8 "1fa0", some (utf8 "1fa0")))
    × (show_token one_password (some (utf8 "1fa0")) ≡ ok (some (utf8 "1fa0")))
load_or_create_token-show_token_example =
    load_or_create_token-show_token one_password (0x1f ∷ 0xa0 ∷ []) (7 ∷ []) (utf8 "1fa0") none
      (some (utf8 "1fa0")) written_back (omega arith) (λ e h. absurd (cc h)) first_start
