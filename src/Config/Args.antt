-- ===== src/Config/Args.antt =====
-- src/config.rs: a configuration survives being written as a command line.
use qqflow_server.Prelude.{
  ℕ, ◌<◌, ◌≡◌, refl, sym, ap, ◌∙◌, Bool, true, false, not, Option, none, some, List, [], ◌∷◌, ◌++◌,
  all, ◌==◌, arith,
}
use qqflow_server.Text.{Text, utf8, starts_with}
use qqflow_server.Text.Decimal.{decimal}
use qqflow_server.Text.Value.{is_decimal, all-decimal}
use qqflow_server.Text.Integer.{parse_below-decimal}
use qqflow_server.Server.Requests.{ok}
use qqflow_server.Config.{
  Config, default_config, is_log, is_log_format, set_flag, consumed, step, parse_loop, parse_args,
}
use qqflow_server.Config.Valid.{IsConfig}

-- The flags of a configuration, each with its value behind it.
abbrev optional_flag : Text → Option Text → List Text
optional_flag flag none = []
optional_flag flag (some v) = flag ∷ v ∷ []

abbrev switch : Bool → List Text
switch false = []
switch true = utf8 "--show-token" ∷ []

abbrev pub to_args : Config → List Text
to_args c =
    utf8 "--port"
      ∷ decimal c.port
      ∷ utf8 "--host"
      ∷ c.host
      ∷ utf8 "--log"
      ∷ c.log
      ∷ utf8 "--log-format"
      ∷ c.log_format
      ∷ utf8 "--watch-debounce-ms"
      ∷ decimal c.watch_debounce_ms
      ∷ utf8 "--watch-fallback-ms"
      ∷ decimal c.watch_fallback_ms
      ∷ optional_flag (utf8 "--media-export-dir") c.media_export_dir
    ++ optional_flag (utf8 "--base-url") c.base_url
    ++ switch c.show_token

-- A value that does not look like a flag.
abbrev pub is_value : Text → Bool
is_value v = not (starts_with (utf8 "--") v)

abbrev is_value_opt : Option Text → Bool
is_value_opt none = true
is_value_opt (some v) = is_value v

pub record CanWrite (c : Config) : Type 0 where
  pub valid : IsConfig c
  pub host_value : is_value c.host ≡ true
  pub dir_value : is_value_opt c.media_export_dir ≡ true
  pub url_value : is_value_opt c.base_url ≡ true

value_digits : (s : Text) → all is_decimal s ≡ true → starts_with (utf8 "--") s ≡ false
value_digits [] h = refl
value_digits (d ∷ s) h = let other : (b'-' == d) ≡ false = ground (arith, h) in rw other refl

-- A flag and its value change the configuration the way the flag says.
flag_run :
    (flag v : Text) (rest : List Text) (c d : Config)
    → step flag (some v) c ≡ consumed d
    → parse_loop (flag ∷ v ∷ rest) c ≡ parse_loop rest d
unfolding parse_loop
flag_run flag v rest c d h = rw (parse_loop, h) refl

plain_value : (v : Text) → is_value v ≡ true → starts_with (utf8 "--") v ≡ false
plain_value v h = ground (arith, h)

log_plain : (v : Text) → is_log v ≡ true → starts_with (utf8 "--") v ≡ false
log_plain [] h = refl
log_plain (d ∷ s) h = let other : (b'-' == d) ≡ false = ground (arith, h) in rw other refl

format_plain : (v : Text) → is_log_format v ≡ true → starts_with (utf8 "--") v ≡ false
format_plain [] h = refl
format_plain (d ∷ s) h = let other : (b'-' == d) ≡ false = ground (arith, h) in rw other refl

port_step :
    (n : ℕ) (c : Config)
    → n < 65536
    → step (utf8 "--port") (some (decimal n)) c ≡ consumed (record c { port = n })
unfolding step set_flag
port_step n c h =
    rw (value_digits (decimal n) (all-decimal n), parse_below-decimal 65536 n (omega arith) h) refl

host_step :
    (v : Text) (c : Config)
    → is_value v ≡ true
    → step (utf8 "--host") (some v) c ≡ consumed (record c { host = v })
unfolding step set_flag
host_step v c h = rw (plain_value v h) refl

log_step :
    (v : Text) (c : Config)
    → is_log v ≡ true
    → step (utf8 "--log") (some v) c ≡ consumed (record c { log = v })
unfolding step set_flag
log_step v c h = rw (log_plain v h, h) refl

format_step :
    (v : Text) (c : Config)
    → is_log_format v ≡ true
    → step (utf8 "--log-format") (some v) c ≡ consumed (record c { log_format = v })
unfolding step set_flag
format_step v c h = rw (format_plain v h, h) refl

debounce_step :
    (n : ℕ) (c : Config)
    → n < 18446744073709551616
    → step (utf8 "--watch-debounce-ms") (some (decimal n)) c
      ≡ consumed (record c { watch_debounce_ms = n })
unfolding step set_flag
debounce_step n c h =
    rw
      (
        value_digits (decimal n) (all-decimal n),
        parse_below-decimal 18446744073709551616 n (omega arith) h,
      )
      refl

fallback_step :
    (n : ℕ) (c : Config)
    → n < 18446744073709551616
    → step (utf8 "--watch-fallback-ms") (some (decimal n)) c
      ≡ consumed (record c { watch_fallback_ms = n })
unfolding step set_flag
fallback_step n c h =
    rw
      (
        value_digits (decimal n) (all-decimal n),
        parse_below-decimal 18446744073709551616 n (omega arith) h,
      )
      refl

dir_step :
    (v : Text) (c : Config)
    → is_value v ≡ true
    → step (utf8 "--media-export-dir") (some v) c
      ≡ consumed (record c { media_export_dir = some v })
unfolding step set_flag
dir_step v c h = rw (plain_value v h) refl

url_step :
    (v : Text) (c : Config)
    → is_value v ≡ true
    → step (utf8 "--base-url") (some v) c ≡ consumed (record c { base_url = some v })
unfolding step set_flag
url_step v c h = rw (plain_value v h) refl

-- What the optional flags and the switch leave, from a configuration without them.
switch_run :
    (b : Bool) (c : Config)
    → c.show_token ≡ false
    → parse_loop (switch b) c ≡ ok (some (record c { show_token = b }))
unfolding parse_loop step
switch_run false c h = ap (λ b. ok (some (record c { show_token = b }))) h
switch_run true c h = refl

url_run :
    (o : Option Text) (b : Bool) (c : Config)
    → is_value_opt o ≡ true
    → c.base_url ≡ none
    → c.show_token ≡ false
    → parse_loop (optional_flag (utf8 "--base-url") o ++ switch b) c
      ≡ ok (some (record c { base_url = o; show_token = b }))
url_run none b c h u s =
    switch_run b c s ∙ ap (λ o. ok (some (record c { base_url = o; show_token = b }))) u
url_run (some v) b c h u s =
    flag_run (utf8 "--base-url") v (switch b) c (record c { base_url = some v }) (url_step v c h)
    ∙ switch_run b (record c { base_url = some v }) s

dir_run :
    (o p : Option Text) (b : Bool) (c : Config)
    → is_value_opt o ≡ true
    → is_value_opt p ≡ true
    → c.media_export_dir ≡ none
    → c.base_url ≡ none
    → c.show_token ≡ false
    → parse_loop
        (optional_flag (utf8 "--media-export-dir") o
          ++ optional_flag (utf8 "--base-url") p
          ++ switch b)
        c
      ≡ ok (some (record c { media_export_dir = o; base_url = p; show_token = b }))
dir_run none p b c h k d u s =
    url_run p b c k u s
    ∙ ap (λ o. ok (some (record c { media_export_dir = o; base_url = p; show_token = b }))) d
dir_run (some v) p b c h k d u s =
    let c' = record c { media_export_dir = some v } in
    flag_run (utf8 "--media-export-dir") v (optional_flag (utf8 "--base-url") p ++ switch b) c c'
      (dir_step v c h)
    ∙ url_run p b c' k u s

-- A valid configuration whose host, media directory and base URL do not begin with `--`, written as
-- flags that each have their value behind them, is read back as itself.
pub parse_args-to_args : (c : Config) → CanWrite c → parse_args (to_args c) ≡ ok (some c)
unfolding parse_args
parse_args-to_args c h =
    let tail =
      optional_flag (utf8 "--media-export-dir") c.media_export_dir
      ++ optional_flag (utf8 "--base-url") c.base_url
      ++ switch c.show_token in
    let c1 = record default_config { port = c.port } in
    let c2 = record c1 { host = c.host } in
    let c3 = record c2 { log = c.log } in
    let c4 = record c3 { log_format = c.log_format } in
    let c5 = record c4 { watch_debounce_ms = c.watch_debounce_ms } in
    let c6 = record c5 { watch_fallback_ms = c.watch_fallback_ms } in
    let r6 = utf8 "--watch-fallback-ms" ∷ decimal c.watch_fallback_ms ∷ tail in
    let r5 = utf8 "--watch-debounce-ms" ∷ decimal c.watch_debounce_ms ∷ r6 in
    let r4 = utf8 "--log-format" ∷ c.log_format ∷ r5 in
    let r3 = utf8 "--log" ∷ c.log ∷ r4 in
    let r2 = utf8 "--host" ∷ c.host ∷ r3 in
    flag_run (utf8 "--port") (decimal c.port) r2 default_config c1
      (port_step c.port default_config h.valid.port_fits)
    ∙ flag_run (utf8 "--host") c.host r3 c1 c2 (host_step c.host c1 h.host_value)
    ∙ flag_run (utf8 "--log") c.log r4 c2 c3 (log_step c.log c2 h.valid.log_known)
    ∙ flag_run (utf8 "--log-format") c.log_format r5 c3 c4
        (format_step c.log_format c3 h.valid.format_known)
    ∙ flag_run (utf8 "--watch-debounce-ms") (decimal c.watch_debounce_ms) r6 c4 c5
        (debounce_step c.watch_debounce_ms c4 h.valid.debounce_fits)
    ∙ flag_run (utf8 "--watch-fallback-ms") (decimal c.watch_fallback_ms) tail c5 c6
        (fallback_step c.watch_fallback_ms c5 h.valid.fallback_fits)
    ∙ dir_run c.media_export_dir c.base_url c.show_token c6 h.dir_value h.url_value refl refl refl
    ∙ ap (λ t. ok (some (record c { token = t }))) (sym h.valid.no_token)
