-- ===== src/Config/Valid.antt =====
-- src/config.rs: a configuration that the command line gives can be used.
use mathlib.Core.Path.{subst}
use qqflow_server.Prelude.{
  ℕ, ◌<◌, ◌≡◌, refl, Bool, true, false, Option, none, some, List, [], ◌∷◌, if◌then◌else◌, arith,
}
use qqflow_server.Text.{Text, utf8, text_eq, is_empty, starts_with}
use qqflow_server.Text.Integer.{parse_below, parse_below-below}
use qqflow_server.Server.Requests.{Result, ok, err}
use qqflow_server.Config.{
  Config, default_config, ArgError, is_log, is_log_format, set_number, set_flag, Step, stopped,
  advanced, consumed, settled, step, parse_loop, parse_args, bad_port, bad_debounce, bad_fallback,
  take_value, split_equals, asks_help, asks_version,
}

-- A port of 16 bits, times of 64 bits, a known level and format, and no token.
pub record IsConfig (c : Config) : Type 0 where
  pub port_fits : c.port < 65536
  pub log_known : is_log c.log ≡ true
  pub format_known : is_log_format c.log_format ≡ true
  pub debounce_fits : c.watch_debounce_ms < 18446744073709551616
  pub fallback_fits : c.watch_fallback_ms < 18446744073709551616
  pub no_token : c.token ≡ none

abbrev SetTo : Result Config ArgError → (Config → Type 0) → Type 0
SetTo (ok c) P = P c
SetTo (err e) P = Unit

abbrev Given : Result (Option Config) ArgError → (Config → Type 0) → Type 0
Given (ok none) P = Unit
Given (ok (some c)) P = P c
Given (err e) P = Unit

abbrev Stepped : Step → (Config → Type 0) → Type 0
Stepped (stopped r) P = Given r P
Stepped (advanced c) P = P c
Stepped (consumed c) P = P c

if_holds :
    {A : Type 0} (P : A → Type 0) (b : Bool) {x y : A}
    → (b ≡ true → P x)
    → P y
    → P (if b then x else y)
if_holds P true p q = p refl
if_holds P false p q = q

number_set :
    (o : Option ℕ) (f : ℕ → Config) (e : ArgError)
    → ((n : ℕ) → o ≡ some n → IsConfig (f n))
    → SetTo (set_number o f e) IsConfig
number_set none f e h = tt
number_set (some n) f e h = h n refl

set_flag-IsConfig :
    (flag value : Text) (c : Config) → IsConfig c → SetTo (set_flag flag value c) IsConfig
unfolding set_flag
set_flag-IsConfig flag value c h =
    let P : Result Config ArgError → Type 0 = λ r. SetTo r IsConfig in
    if_holds P (text_eq flag (utf8 "--port"))
      (λ e.
        number_set (parse_below 65536 value) (λ n. record c { port = n }) (bad_port value)
          (λ n k. record {
            port_fits = parse_below-below 65536 value n k;
            log_known = h.log_known;
            format_known = h.format_known;
            debounce_fits = h.debounce_fits;
            fallback_fits = h.fallback_fits;
            no_token = h.no_token;
          }))
      (if_holds P (text_eq flag (utf8 "--host"))
        (λ e. record {
          port_fits = h.port_fits;
          log_known = h.log_known;
          format_known = h.format_known;
          debounce_fits = h.debounce_fits;
          fallback_fits = h.fallback_fits;
          no_token = h.no_token;
        })
        (if_holds P (text_eq flag (utf8 "--log"))
          (λ e.
            if_holds P (is_log value)
              (λ k. record {
                port_fits = h.port_fits;
                log_known = k;
                format_known = h.format_known;
                debounce_fits = h.debounce_fits;
                fallback_fits = h.fallback_fits;
                no_token = h.no_token;
              })
              tt)
          (if_holds P (text_eq flag (utf8 "--log-format"))
            (λ e.
              if_holds P (is_log_format value)
                (λ k. record {
                  port_fits = h.port_fits;
                  log_known = h.log_known;
                  format_known = k;
                  debounce_fits = h.debounce_fits;
                  fallback_fits = h.fallback_fits;
                  no_token = h.no_token;
                })
                tt)
            (if_holds P (text_eq flag (utf8 "--watch-debounce-ms"))
              (λ e.
                number_set (parse_below 18446744073709551616 value)
                  (λ n. record c { watch_debounce_ms = n }) (bad_debounce value)
                  (λ n k. record {
                    port_fits = h.port_fits;
                    log_known = h.log_known;
                    format_known = h.format_known;
                    debounce_fits = parse_below-below 18446744073709551616 value n k;
                    fallback_fits = h.fallback_fits;
                    no_token = h.no_token;
                  }))
              (if_holds P (text_eq flag (utf8 "--watch-fallback-ms"))
                (λ e.
                  number_set (parse_below 18446744073709551616 value)
                    (λ n. record c { watch_fallback_ms = n }) (bad_fallback value)
                    (λ n k. record {
                      port_fits = h.port_fits;
                      log_known = h.log_known;
                      format_known = h.format_known;
                      debounce_fits = h.debounce_fits;
                      fallback_fits = parse_below-below 18446744073709551616 value n k;
                      no_token = h.no_token;
                    }))
                (if_holds P (text_eq flag (utf8 "--media-export-dir"))
                  (λ e. record {
                    port_fits = h.port_fits;
                    log_known = h.log_known;
                    format_known = h.format_known;
                    debounce_fits = h.debounce_fits;
                    fallback_fits = h.fallback_fits;
                    no_token = h.no_token;
                  })
                  (if_holds P (text_eq flag (utf8 "--base-url"))
                    (λ e. record {
                      port_fits = h.port_fits;
                      log_known = h.log_known;
                      format_known = h.format_known;
                      debounce_fits = h.debounce_fits;
                      fallback_fits = h.fallback_fits;
                      no_token = h.no_token;
                    })
                    tt)))))))

settled-IsConfig :
    (r : Result Config ArgError)
    → SetTo r IsConfig
    → Stepped (settled advanced r) IsConfig × Stepped (settled consumed r) IsConfig
settled-IsConfig (ok c) h = (h, h)
settled-IsConfig (err e) h = (tt, tt)

take_value-IsConfig :
    (flag : Text) (inline next : Option Text) (c : Config)
    → IsConfig c
    → Stepped (take_value flag inline next c) IsConfig
take_value-IsConfig flag (some v) next c h =
    if_holds (λ s. Stepped s IsConfig) (is_empty v) (λ e. tt)
      (settled-IsConfig (set_flag flag v c) (set_flag-IsConfig flag v c h)).0
take_value-IsConfig flag none none c h = tt
take_value-IsConfig flag none (some next) c h =
    if_holds (λ s. Stepped s IsConfig) (starts_with (utf8 "--") next) (λ e. tt)
      (settled-IsConfig (set_flag flag next c) (set_flag-IsConfig flag next c h)).1

step-IsConfig :
    (arg : Text) (next : Option Text) (c : Config) → IsConfig c → Stepped (step arg next c) IsConfig
unfolding step
step-IsConfig arg next c h =
    let flag = (split_equals arg).0 in
    let P : Step → Type 0 = λ s. Stepped s IsConfig in
    if_holds P (asks_help flag) (λ e. tt)
      (if_holds P (asks_version flag) (λ e. tt)
        (if_holds P (text_eq flag (utf8 "--show-token"))
          (λ e. record {
            port_fits = h.port_fits;
            log_known = h.log_known;
            format_known = h.format_known;
            debounce_fits = h.debounce_fits;
            fallback_fits = h.fallback_fits;
            no_token = h.no_token;
          })
          (take_value-IsConfig flag (split_equals arg).1 next c h)))

last_step :
    (s : Step)
    → Stepped s IsConfig
    → Given
        (elim s [ stopped r ↦ r | advanced c ↦ ok (some c) | consumed c ↦ ok (some c) ])
        IsConfig
last_step (stopped r) h = h
last_step (advanced c) h = h
last_step (consumed c) h = h

more_steps :
    (s : Step) (next : Text) (rest : List Text)
    → Stepped s IsConfig
    → ((c : Config) → IsConfig c → Given (parse_loop (next ∷ rest) c) IsConfig)
    → ((c : Config) → IsConfig c → Given (parse_loop rest c) IsConfig)
    → Given
        (elim s [
          | stopped r ↦ r
          | advanced c ↦ parse_loop (next ∷ rest) c
          | consumed c ↦ parse_loop rest c
        ])
        IsConfig
more_steps (stopped r) next rest h one two = h
more_steps (advanced c) next rest h one two = one c h
more_steps (consumed c) next rest h one two = two c h

default-IsConfig : IsConfig default_config
default-IsConfig = record {
  port_fits = omega arith;
  log_known = refl;
  format_known = refl;
  debounce_fits = omega arith;
  fallback_fits = omega arith;
  no_token = refl;
}

parse_loop-IsConfig :
    (args : List Text) (c : Config) → IsConfig c → Given (parse_loop args c) IsConfig
unfolding parse_loop
parse_loop-IsConfig [] c h = h
parse_loop-IsConfig (arg ∷ []) c h = last_step (step arg none c) (step-IsConfig arg none c h)
parse_loop-IsConfig (arg ∷ next ∷ rest) c h =
    more_steps (step arg (some next) c) next rest (step-IsConfig arg (some next) c h)
      (parse_loop-IsConfig (next ∷ rest)) (parse_loop-IsConfig rest)

Given-ok :
    (r : Result (Option Config) ArgError) (c : Config)
    → r ≡ ok (some c)
    → Given r IsConfig
    → IsConfig c
Given-ok r c e h = subst (λ x. Given x IsConfig) e h

-- Every command line that is accepted gives a port of 16 bits, times of 64 bits, a known log level
-- and log format, and no token: a token never comes from the command line.
pub parse_args-IsConfig :
    (args : List Text) (c : Config) → parse_args args ≡ ok (some c) → IsConfig c
unfolding parse_args
parse_args-IsConfig args c e =
    Given-ok (parse_args args) c e (parse_loop-IsConfig args default_config default-IsConfig)
