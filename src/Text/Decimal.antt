-- ===== src/Text/Decimal.antt =====
-- `to_string` of an integer.
use qqflow_server.Prelude.{ℕ, zero, suc, ◌+◌, ◌/◌, ◌%◌, [], ◌∷◌, ◌≡◌, refl, ◌==◌, if◌then◌else◌}
use qqflow_server.Prelude.Int.{ℤ, pos, negsuc}
use qqflow_server.Text.{Text, utf8}

-- Twenty rounds cover every 64-bit number.
unfoldable pub digits_loop : ℕ → ℕ → Text → Text
digits_loop zero n acc = acc
digits_loop (suc fuel) n acc =
    let acc' = (b'0' + n % 10) ∷ acc in
    let more = digits_loop fuel (n / 10) acc' in if n / 10 == 0 then acc' else more

unfoldable pub decimal : ℕ → Text
unfolding digits_loop
decimal n = digits_loop 20 n []

unfoldable pub to_string : ℤ → Text
unfolding decimal
to_string (pos n) = decimal n
to_string (negsuc n) = b'-' ∷ decimal (n + 1)

to_string_runs : to_string (negsuc 1204) ≡ utf8 "-1205"
unfolding to_string
to_string_runs = refl
