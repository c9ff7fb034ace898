-- ===== src/Tests/Wire.antt =====
-- parser/proto.rs on concrete bytes.
use qqflow_server.Prelude.{ℕ, ◌≡◌, refl, none, some, List, [], ◌∷◌, map, arith}
use qqflow_server.Text.{utf8, is_utf8}
use qqflow_server.Proto.Cursor.{
  new, read_varint, varint_loop, read_tag, read_bytes, read_len_bytes, skip,
}
use qqflow_server.Proto.Encode.{enc_varint, enc_loop, varint_field, bytes_field, enc_field, segment}
use qqflow_server.Proto.Segment.{
  ParsedSegment, decode_segment, walk_loop, finish, start, arm_of, run_arm, set_number, set_bytes,
  str_from_bytes,
}
use qqflow_server.Proto.Body.{parse_msg_body, body_loop}
use qqflow_server.Proto.RoundTrip.{
  Field, number, bytes, write_field, write_fields, apply_fields, decode_segment-write_fields,
}
use qqflow_server.Parser.Structured.{
  extract_structured, conclude, extract_loop, kind_of, extract_kind, push_text,
}
use qqflow_server.Types.{MsgType, simple}
use qqflow_server.Proto.BodyRoundTrip.{write_body, parse_msg_body-write_body}

abbrev hello : List Field
hello = number 45001 7 ∷ number 45002 1 ∷ bytes 99 (1 ∷ 2 ∷ []) ∷ bytes 45101 (utf8 "你好") ∷ []

-- The encoded fields, as bytes.
abbrev hello_bytes : List ℕ
hello_bytes =
    0xc8 ∷ 0xfc ∷ 0x15 ∷ 7 ∷ 0xd0 ∷ 0xfc ∷ 0x15 ∷ 1 ∷ 0x9a ∷ 0x06 ∷ 2 ∷ 1 ∷ 2 ∷ 0xea ∷ 0x82 ∷ 0x16
    ∷ 6 ∷ 0xe4 ∷ 0xbd ∷ 0xa0 ∷ 0xe5 ∷ 0xa5 ∷ 0xbd ∷ []

hello_written : write_fields hello [] ≡ hello_bytes
unfolding write_fields write_field varint_field bytes_field enc_field enc_varint enc_loop
hello_written = refl

abbrev hello_segment : ParsedSegment
hello_segment = record {
  seg_id = some 7;
  content_type = some 1;
  media_subtype = none;
  text = some (utf8 "你好");
  media = none;
}

hello_decoded : decode_segment hello_bytes ≡ hello_segment
unfolding decode_segment new walk_loop finish read_tag read_varint varint_loop read_len_bytes
    read_bytes skip arm_of run_arm set_number set_bytes str_from_bytes is_utf8
hello_decoded = refl

decode_segment-write_fields_example :
    decode_segment (write_fields hello []) ≡ finish (apply_fields hello start)
unfolding write_fields write_field varint_field bytes_field enc_field enc_varint enc_loop
decode_segment-write_fields_example = decode_segment-write_fields hello (omega arith) (omega arith)

parse_msg_body-write_body_example :
    parse_msg_body (write_body (hello_bytes ∷ [] ∷ [])) ≡ map decode_segment (hello_bytes ∷ [] ∷ [])
unfolding write_body segment bytes_field enc_field enc_varint enc_loop
parse_msg_body-write_body_example = parse_msg_body-write_body (hello_bytes ∷ [] ∷ []) (omega arith)

-- A body of one text segment.
abbrev hello_body : List ℕ
hello_body = 0x82 ∷ 0xf6 ∷ 0x13 ∷ 23 ∷ hello_bytes

hello_body_written : write_body (hello_bytes ∷ []) ≡ hello_body
unfolding write_body segment bytes_field enc_field enc_varint enc_loop
hello_body_written = refl

hello_message : extract_structured hello_body ≡ some (simple MsgType.text (utf8 "你好"))
unfolding extract_structured conclude extract_loop extract_kind kind_of push_text simple
    parse_msg_body body_loop decode_segment new walk_loop finish read_tag read_varint varint_loop
    read_len_bytes read_bytes skip arm_of run_arm set_number set_bytes str_from_bytes is_utf8
hello_message = refl
