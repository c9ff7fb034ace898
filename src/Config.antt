-- ===== src/Config.antt =====
-- src/config.rs: the command line of the server. A path is the text that names it.
pub mod Valid
pub mod Args
pub mod Token
use qqflow_server.Prelude.{
  ℕ, Bool, true, false, ◌||◌, Option, none, some, List, [], ◌∷◌, ◌==◌, if◌then◌else◌,
}
use qqflow_server.Text.{Text, utf8, text_eq, is_empty, starts_with}
use qqflow_server.Text.Integer.{parse_below}
use qqflow_server.Server.Requests.{Result, ok, err}

pub record Config : Type 0 where
  pub port : ℕ
  pub host : Text
  pub log : Text
  pub log_format : Text
  pub watch_debounce_ms : ℕ
  pub watch_fallback_ms : ℕ
  pub media_export_dir : Option Text
  pub base_url : Option Text
  pub show_token : Bool
  pub token : Option Text

abbrev pub default_config : Config
default_config = record {
  port = 5032;
  host = utf8 "127.0.0.1";
  log = utf8 "info";
  log_format = utf8 "text";
  watch_debounce_ms = 350;
  watch_fallback_ms = 30000;
  media_export_dir = none;
  base_url = none;
  show_token = false;
  token = none;
}

-- Why a command line is refused, with the words that the message names.
pub data ArgError : Type 0 where
  empty_value : Text → ArgError
  missing_value : Text → ArgError
  flag_as_value : Text → Text → ArgError
  bad_port : Text → ArgError
  bad_log : Text → ArgError
  bad_log_format : Text → ArgError
  bad_debounce : Text → ArgError
  bad_fallback : Text → ArgError
  unknown_flag : Text → ArgError

-- `split_once('=')`, with the whole argument where there is no `=`.
abbrev pub split_equals : Text → Text × Option Text
split_equals [] = ([], none)
split_equals (c ∷ s) =
    let (flag, inline) = split_equals s in if c == b'=' then ([], some s) else (c ∷ flag, inline)

abbrev pub is_log : Text → Bool
is_log v =
    text_eq v (utf8 "error")
    || text_eq v (utf8 "warn")
    || text_eq v (utf8 "info")
    || text_eq v (utf8 "debug")

abbrev pub is_log_format : Text → Bool
is_log_format v = text_eq v (utf8 "text") || text_eq v (utf8 "json")

-- What the parsed value is for: a setting, or the error of the flag.
abbrev pub set_number : Option ℕ → (ℕ → Config) → ArgError → Result Config ArgError
set_number none f e = err e
set_number (some n) f e = ok (f n)

unfoldable pub set_flag : Text → Text → Config → Result Config ArgError
set_flag flag value cfg =
    if text_eq flag (utf8 "--port")
    then set_number (parse_below 65536 value) (λ n. record cfg { port = n }) (bad_port value)
    else if text_eq flag (utf8 "--host")
    then ok (record cfg { host = value })
    else if text_eq flag (utf8 "--log")
    then if is_log value then ok (record cfg { log = value }) else err (bad_log value)
    else if text_eq flag (utf8 "--log-format")
    then if is_log_format value
      then ok (record cfg { log_format = value })
      else err (bad_log_format value)
    else if text_eq flag (utf8 "--watch-debounce-ms")
    then set_number (parse_below 18446744073709551616 value)
        (λ n. record cfg { watch_debounce_ms = n }) (bad_debounce value)
    else if text_eq flag (utf8 "--watch-fallback-ms")
    then set_number (parse_below 18446744073709551616 value)
        (λ n. record cfg { watch_fallback_ms = n }) (bad_fallback value)
    else if text_eq flag (utf8 "--media-export-dir")
    then ok (record cfg { media_export_dir = some value })
    else if text_eq flag (utf8 "--base-url")
    then ok (record cfg { base_url = some value })
    else err (unknown_flag flag)

-- What one turn of the loop does: it ends, or `i` grows by one or by two.
pub data Step : Type 0 where
  stopped : Result (Option Config) ArgError → Step
  advanced : Config → Step
  consumed : Config → Step

-- The end of a turn: the value is set, and `i` has grown.
abbrev pub settled : (Config → Step) → Result Config ArgError → Step
settled grow (ok cfg) = grow cfg
settled grow (err e) = stopped (err e)

-- A flag that takes a value: the inline one, or the next argument.
abbrev pub take_value : Text → Option Text → Option Text → Config → Step
take_value flag (some v) next cfg =
    if is_empty v then stopped (err (empty_value flag)) else settled advanced (set_flag flag v cfg)
take_value flag none none cfg = stopped (err (missing_value flag))
take_value flag none (some next) cfg =
    if starts_with (utf8 "--") next
    then stopped (err (flag_as_value flag next))
    else settled consumed (set_flag flag next cfg)

abbrev pub asks_help : Text → Bool
asks_help flag = text_eq flag (utf8 "-h") || text_eq flag (utf8 "--help")

abbrev pub asks_version : Text → Bool
asks_version flag = text_eq flag (utf8 "-V") || text_eq flag (utf8 "--version")

-- One argument, with the next one.
unfoldable pub step : Text → Option Text → Config → Step
unfolding set_flag
step arg next cfg =
    let (flag, inline) = split_equals arg in
    if asks_help flag
    then stopped (ok none)
    else if asks_version flag
    then stopped (ok none)
    else if text_eq flag (utf8 "--show-token")
    then advanced (record cfg { show_token = true })
    else take_value flag inline next cfg

unfoldable pub parse_loop : List Text → Config → Result (Option Config) ArgError
unfolding step
parse_loop [] cfg = ok (some cfg)
parse_loop (arg ∷ []) cfg = elim (step arg none cfg) [
  | stopped r ↦ r
  | advanced cfg' ↦ ok (some cfg')
  | consumed cfg' ↦ ok (some cfg')
]
parse_loop (arg ∷ next ∷ rest) cfg = elim (step arg (some next) cfg) [
  | stopped r ↦ r
  | advanced cfg' ↦ parse_loop (next ∷ rest) cfg'
  | consumed cfg' ↦ parse_loop rest cfg'
]

unfoldable pub parse_args : List Text → Result (Option Config) ArgError
unfolding parse_loop
parse_args args = parse_loop args default_config
