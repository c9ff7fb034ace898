-- ===== src/Tests/Heuristic.antt =====
-- parser/mod.rs: the heuristic parser on blobs of its unit tests' kinds.
use qqflow_server.Prelude.{◌≡◌, refl, some, [], ◌∷◌}
use qqflow_server.Text.{utf8, is_utf8, lead}
use qqflow_server.Text.Chars.{chars, from_chars, trim}
use qqflow_server.Text.Lossy.{lossy_from, from_utf8_lossy}
use qqflow_server.Types.{MsgType, simple}
use qqflow_server.Parser.Heuristic.{
  json_value, extract_json_field, run, scan_loop, scan_from, is_valid_chat_text, extract_phrase,
  extract_run, extract_text, extract_json_blob, is_json_blob, media_type_from_bytes,
}
use qqflow_server.Parser.Heuristic.Filled.{IsFilled, extract_text-IsFilled}
use qqflow_server.Parser.Heuristic.Budget.{free_han, free_ascii, run_message, extract_run-free}

lossy_runs :
    from_utf8_lossy (0xe5 ∷ 0x8f ∷ 0x41 ∷ 0xff ∷ 0xe4 ∷ 0xbd ∷ 0xa0 ∷ 0xf0 ∷ [])
    ≡ 0xfffd ∷ 0x41 ∷ 0xfffd ∷ 0x4f60 ∷ 0xfffd ∷ []
unfolding from_utf8_lossy lossy_from lead
lossy_runs = refl

-- The letter of an escape stays: a line break becomes an `n`.
escape_loses_backslash :
    extract_json_field (utf8 "{\"title\":\"a\\nb\"}") (utf8 "title") ≡ some (utf8 "anb")
unfolding extract_json_field json_value trim chars from_chars
escape_loses_backslash = refl

text_is_read : extract_text (0x0a ∷ 0x12 ∷ utf8 "你好，很高兴") ≡ simple MsgType.text (utf8 "你好，很高兴")
unfolding extract_text extract_phrase extract_json_blob is_json_blob media_type_from_bytes
    extract_run scan_from scan_loop run from_utf8_lossy lossy_from lead is_valid_chat_text is_utf8
    chars from_chars trim
text_is_read = refl

extract_run-free_example :
    extract_run (utf8 "abc 你好")
    ≡ run_message (free_han (utf8 "abc 你好")) (free_ascii (utf8 "abc 你好"))
extract_run-free_example = extract_run-free (utf8 "abc 你好")

extract_text-IsFilled_example : IsFilled (extract_text (utf8 "abc 你好")).content
extract_text-IsFilled_example = extract_text-IsFilled (utf8 "abc 你好")
