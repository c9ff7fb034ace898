-- ===== src/Proto/BodyRoundTrip.antt =====
-- `parse_msg_body` gives back the segments of an encoded message body.
use mathlib.Core.List.{append_assoc, append-nil}
use qqflow_server.Prelude.{
  ℕ, zero, suc, ◌+◌, ◌*◌, ◌^◌, ◌≤◌, ◌<◌, ◌≡◌, refl, sym, ap, ◌∙◌, none, some, List, [], ◌∷◌, ◌++◌,
  arith, length, length-append, drop, drop-past, past_inside, map,
}
use qqflow_server.Proto.Cursor.{Cursor, new, read_tag, read_len_bytes}
use qqflow_server.Proto.Encode.{segment, field_msg_content}
use qqflow_server.Proto.Varint.{groups}
use qqflow_server.Proto.Segment.{ParsedSegment, decode_segment}
use qqflow_server.Proto.Body.{body_loop, parse_msg_body}
use qqflow_server.Proto.RoundTrip.{
  bytes, write_field, field_bytes, write_field-bytes, read_tag-groups, read_len_bytes-drop,
  read_tag_end, length-groups,
}

segment-bytes : (s : List ℕ) → segment s ≡ field_bytes (bytes field_msg_content s)
unfolding segment write_field
segment-bytes s = write_field-bytes (bytes field_msg_content s) []

body_round :
    (fuel : ℕ) (b : List ℕ) (c c₁ c₂ : Cursor) (out : List ParsedSegment)
    → read_tag c ≡ (some (field_msg_content, 2), c₁)
    → read_len_bytes c₁ ≡ (some b, c₂)
    → body_loop (suc fuel) c out ≡ body_loop fuel c₂ (out ++ decode_segment b ∷ [])
unfolding body_loop
body_round fuel b c c₁ c₂ out h k = ground arith

body_end :
    (fuel : ℕ) (c : Cursor) (out : List ParsedSegment)
    → (read_tag c).0 ≡ none
    → body_loop fuel c out ≡ out
unfolding body_loop
body_end zero c out h = refl
body_end (suc fuel) c out h = ground arith

length-segment : (s : List ℕ) → length s + 1 ≤ length (segment s)
unfolding field_bytes
length-segment s = rw (segment-bytes s) (
    omega (
      arith,
      length-append (groups 10 (field_msg_content * 8 + 2)) (groups 10 (length s) ++ s),
      length-append (groups 10 (length s)) s,
      length-groups (field_msg_content * 8 + 2),
    ))

body_segment :
    (fuel : ℕ) (buf : List ℕ) (pos : ℕ) (s rest : List ℕ) (out : List ParsedSegment)
    → drop pos buf ≡ segment s ++ rest
    → pos ≤ length buf
    → length buf < 2 ^ 64
    → length s < 2 ^ 64
    → body_loop (suc fuel) (record { buf = buf; pos = pos }) out
      ≡ body_loop fuel
          (record { buf = buf; pos = pos + length (segment s) })
          (out ++ decode_segment s ∷ [])
unfolding field_bytes
body_segment fuel buf pos s rest out at hp hb hs =
    let tag : List ℕ = groups 10 (field_msg_content * 8 + 2) in
    let len : List ℕ = groups 10 (length s) in
    let whole : segment s ≡ tag ++ (len ++ s) = segment-bytes s in
    let at' : drop pos buf ≡ tag ++ (len ++ (s ++ rest)) =
      at
      ∙ ap (λ l. l ++ rest) whole
      ∙ append_assoc tag (len ++ s) rest
      ∙ ap (λ l. tag ++ l) (append_assoc len s rest) in
    body_round fuel s _ _ _ out
      (read_tag-groups buf pos field_msg_content 2 (len ++ (s ++ rest)) (omega arith) (omega arith)
        at')
      (read_len_bytes-drop buf (pos + length tag) s rest
        (drop-past pos buf tag (len ++ (s ++ rest)) at')
        (past_inside pos buf tag (len ++ (s ++ rest)) hp at') hb hs)
    ∙ ap (λ q. body_loop fuel (record { buf = buf; pos = q }) (out ++ decode_segment s ∷ []))
        (omega (arith, length-append tag (len ++ s), length-append len s, ap length whole))

-- An encoded message body: each segment under its 40800 wrapper.
unfoldable pub write_body : List (List ℕ) → List ℕ
write_body [] = []
write_body (s ∷ ss) = segment s ++ write_body ss

length-write_body : (ss : List (List ℕ)) → length ss ≤ length (write_body ss)
unfolding write_body
length-write_body [] = omega arith
length-write_body (s ∷ ss) =
    omega (arith, length-append (segment s) (write_body ss), length-segment s, length-write_body ss)

body_loop-segments :
    (ss : List (List ℕ)) (fuel : ℕ) (buf : List ℕ) (pos : ℕ) (out : List ParsedSegment)
    → drop pos buf ≡ write_body ss
    → pos ≤ length buf
    → length buf < 2 ^ 64
    → length ss ≤ fuel
    → body_loop fuel (record { buf = buf; pos = pos }) out ≡ out ++ map decode_segment ss
unfolding write_body
body_loop-segments [] fuel buf pos out at hp hb hf =
    body_end fuel _ out (read_tag_end buf pos at) ∙ sym (append-nil out)
body_loop-segments (s ∷ ss) zero buf pos out at hp hb hf = absurd (omega arith)
body_loop-segments (s ∷ ss) (suc fuel) buf pos out at hp hb hf =
    let inside : pos + length (segment s) ≤ length buf =
      past_inside pos buf (segment s) (write_body ss) hp at in
    body_segment fuel buf pos s (write_body ss) out at hp hb (omega (arith, length-segment s))
    ∙ body_loop-segments ss fuel buf (pos + length (segment s)) (out ++ decode_segment s ∷ [])
        (drop-past pos buf (segment s) (write_body ss) at) inside hb (omega arith)
    ∙ append_assoc out (decode_segment s ∷ []) (map decode_segment ss)

-- `parse_msg_body` gives back the segments of an encoded body, each decoded, in their order.
pub parse_msg_body-write_body :
    (ss : List (List ℕ))
    → length (write_body ss) < 2 ^ 64
    → parse_msg_body (write_body ss) ≡ map decode_segment ss
unfolding parse_msg_body new
parse_msg_body-write_body ss short =
    body_loop-segments ss (length (write_body ss)) (write_body ss) 0 [] refl (omega arith) short
      (length-write_body ss)
