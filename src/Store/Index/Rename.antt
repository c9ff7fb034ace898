-- ===== src/Store/Index/Rename.antt =====
-- store/index.rs, guess_group_name: the name in a message that says that a group was renamed.
use qqflow_server.Prelude.{
  ℕ, Bool, not, ◌&&◌, ◌||◌, ◌≡◌, refl, Option, leb, ◌==◌, length, or_else, unwrap_or, filter_some,
  map_some,
}
use qqflow_server.Text.{Text, utf8, is_empty, text_after}
use qqflow_server.Text.Chars.{chars, from_chars, drop_while, drop_end, trim}

-- `char::is_ascii_whitespace`, quotes, and the marks ，。「」（）().
abbrev pub is_quote : ℕ → Bool
is_quote c =
    c == 32
    || c == 9
    || c == 10
    || c == 12
    || c == 13
    || c == b'"'
    || c == b'\''
    || c == 0xff0c
    || c == 0x3002
    || c == 0x300c
    || c == 0x300d
    || c == 0xff08
    || c == 0xff09
    || c == b'('
    || c == b')'

abbrev pub trim_quotes : Text → Text
trim_quotes s = from_chars (drop_end is_quote (drop_while is_quote (chars s)))

-- One turn of the loop: the name behind this marker, when it may be one.
abbrev pub name_after : Text → Text → Option Text
name_after text marker =
    filter_some (λ name. not (is_empty name) && leb (length (chars name)) 64)
      (map_some (λ rest. trim_quotes (trim rest)) (text_after marker text))

unfoldable pub guess_group_name : Text → Text → Text
guess_group_name text current =
    unwrap_or current (or_else (name_after text (utf8 "修改群名为")) (name_after text (utf8 "已将群名修改为")))

guess_group_name_runs : guess_group_name (utf8 "张三修改群名为“项目群”") (utf8 "old") ≡ utf8 "“项目群”"
unfolding guess_group_name chars from_chars drop_while drop_end trim
guess_group_name_runs = refl
