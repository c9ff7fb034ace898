-- ===== src/Proto/Body.antt =====
-- `parse_msg_body` of parser/proto.rs: the repeated segments of a message body.
use qqflow_server.Prelude.{
  ℕ, zero, suc, true, false, ◌&&◌, none, some, List, [], ◌∷◌, ◌++◌, ◌==◌, length,
}
use qqflow_server.Proto.Cursor.{Cursor, new, read_tag, read_len_bytes, skip}
use qqflow_server.Proto.Encode.{field_msg_content}
use qqflow_server.Proto.Segment.{ParsedSegment, decode_segment}

-- `while let Some((field, wire)) = cursor.read_tag()`, with fuel. A failed read is `break`.
unfoldable pub body_loop : ℕ → Cursor → List ParsedSegment → List ParsedSegment
body_loop zero c out = out
body_loop (suc fuel) c out =
    let (tag, c') = read_tag c in
    elim tag [
      | none ↦ out
      | some (field, wire) ↦ elim (field == field_msg_content && wire == 2) [
        | true ↦
            let (seg, c'') = read_len_bytes c' in
            elim seg [
              | none ↦ out
              | some bytes ↦ body_loop fuel c'' (out ++ decode_segment bytes ∷ [])
            ]
        | false ↦
            let (r, c'') = skip wire c' in elim r [ none ↦ out | some _ ↦ body_loop fuel c'' out ]
      ]
    ]

-- Every round takes a byte at least, so the length is fuel enough (Proto/Reads).
unfoldable pub parse_msg_body : List ℕ → List ParsedSegment
parse_msg_body blob = body_loop (length blob) (new blob) []
