-- ===== src/Proto/Reads.antt =====
-- Every read keeps the buffer, moves forward only and never leaves the buffer; so the two loops of
-- parser/proto.rs end, and their fuel is enough.
use qqflow_server.Prelude.{
  ℕ, zero, suc, ◌+◌, ◌*◌, ◌-◌, ◌≤◌, ◌<◌, bit_and, bit_or, ◌≡◌, refl, Option, none, some, List, [],
  ◌∷◌, ◌++◌, ap, arith, ◌⊎◌, inl, inr, get_elem?, get_elem?-lt, length, Option-cases,
}
use qqflow_server.Proto.Cursor.{
  Cursor, new, varint_loop, read_varint, read_tag, read_bytes, read_len_bytes, skip, shl64,
}
use qqflow_server.Proto.Body.{body_loop, parse_msg_body}
use qqflow_server.Proto.Segment.{
  Arm, Walk, ParsedSegment, arm_of, run_arm, walk_loop, start, finish, decode_segment,
}

-- What is known of a cursor after a read.
pub record Ahead (c c' : Cursor) : Type 0 where
  pub same : c'.buf ≡ c.buf
  pub ahead : c.pos ≤ c'.pos
  pub inside : c.pos ≤ length c.buf → c'.pos ≤ length c.buf

-- The bytes that are left.
abbrev pub left : Cursor → ℕ
left c = length c.buf - c.pos

pub varint_loop-Ahead : (n i v : ℕ) (c : Cursor) → Ahead c (varint_loop n i v c).1
unfolding varint_loop
varint_loop-Ahead zero i v c = ground arith
varint_loop-Ahead (suc n) i v c = elim (Option-cases (get_elem? c.buf c.pos)) [
  | inl e ↦ ground arith
  | inr (b, e) ↦ ground (
    arith,
    get_elem?-lt c.pos c.buf e,
    varint_loop-Ahead n (i + 1) (bit_or v (shl64 (bit_and b 0x7f) (7 * i)))
        (record c { pos = c.pos + 1 }),
  )
]

pub read_varint-Ahead : (c : Cursor) → Ahead c (read_varint c).1
unfolding read_varint
read_varint-Ahead c = varint_loop-Ahead 10 0 0 c

-- A read that needs a byte fails, or it took one.
abbrev pub Takes : Cursor → {A : Type 0} → Option A × Cursor → Type 0
Takes c {A} (r, c') = (r ≡ none) ⊎ ((c.pos < c'.pos) × (c.pos < length c.buf))

varint_loop-Takes : (n i v : ℕ) (c : Cursor) → Takes c (varint_loop n i v c)
unfolding varint_loop
varint_loop-Takes zero i v c = inl refl
varint_loop-Takes (suc n) i v c = elim (Option-cases (get_elem? c.buf c.pos)) [
  | inl e ↦ ground arith
  | inr (b, e) ↦ ground (
    arith,
    get_elem?-lt c.pos c.buf e,
    varint_loop-Ahead n (i + 1) (bit_or v (shl64 (bit_and b 0x7f) (7 * i)))
        (record c { pos = c.pos + 1 }),
  )
]

read_varint-Takes : (c : Cursor) → Takes c (read_varint c)
unfolding read_varint
read_varint-Takes c = varint_loop-Takes 10 0 0 c

pub read_tag-Ahead : (c : Cursor) → Ahead c (read_tag c).1
unfolding read_tag
read_tag-Ahead c = ground (arith, read_varint-Ahead c)

pub read_tag-Takes : (c : Cursor) → Takes c (read_tag c)
unfolding read_tag
read_tag-Takes c = ground (arith, read_varint-Takes c)

pub read_bytes-Ahead : (len : ℕ) (c : Cursor) → Ahead c (read_bytes len c).1
unfolding read_bytes
read_bytes-Ahead len c = ground arith

pub read_len_bytes-Ahead : (c : Cursor) → Ahead c (read_len_bytes c).1
unfolding read_len_bytes
read_len_bytes-Ahead c = elim (Option-cases (read_varint c).0) [
  | inl e ↦ ground (arith, read_varint-Ahead c)
  | inr (n, e) ↦ ground (arith, read_varint-Ahead c, read_bytes-Ahead n (read_varint c).1)
]

pub skip-Ahead : (wire : ℕ) (c : Cursor) → Ahead c (skip wire c).1
unfolding skip
skip-Ahead wire c =
    ground (
      arith,
      read_varint-Ahead c,
      read_bytes-Ahead 8 c,
      read_bytes-Ahead 4 c,
      read_len_bytes-Ahead c,
    )

run_arm-Ahead :
    (a : Arm) (wire : ℕ) (c c' : Cursor) (w w' : Walk)
    → run_arm a wire c w ≡ some (c', w')
    → Ahead c c'
unfolding run_arm
run_arm-Ahead Arm.seg_id wire c c' w w' h = ground (arith, read_varint-Ahead c)
run_arm-Ahead Arm.content_type wire c c' w w' h = ground (arith, read_varint-Ahead c)
run_arm-Ahead Arm.media_subtype wire c c' w w' h = ground (arith, read_varint-Ahead c)
run_arm-Ahead Arm.emoji_id wire c c' w w' h = ground (arith, read_varint-Ahead c)
run_arm-Ahead Arm.size wire c c' w w' h = ground (arith, read_varint-Ahead c)
run_arm-Ahead Arm.width wire c c' w w' h = ground (arith, read_varint-Ahead c)
run_arm-Ahead Arm.height wire c c' w w' h = ground (arith, read_varint-Ahead c)
run_arm-Ahead Arm.other wire c c' w w' h = ground (arith, skip-Ahead wire c)
run_arm-Ahead _ wire c c' w w' h = ground (arith, read_len_bytes-Ahead c)

-- Two amounts of fuel that cover the bytes left give the same walk.
walk_loop_enough :
    (f g : ℕ) (c : Cursor) (w : Walk) → left c ≤ f → left c ≤ g → walk_loop f c w ≡ walk_loop g c w
unfolding walk_loop
walk_loop_enough zero zero c w hf hg = refl
walk_loop_enough zero (suc g) c w hf hg = ground (arith, read_tag-Takes c)
walk_loop_enough (suc f) zero c w hf hg = ground (arith, read_tag-Takes c)
walk_loop_enough (suc f) (suc g) c w hf hg = elim (Option-cases (read_tag c).0) [
  | inl e ↦ ground arith
  | inr ((field, wire), e) ↦
      let c' : Cursor = (read_tag c).1 in
      elim (Option-cases (run_arm (arm_of field wire) wire c' w)) [
        | inl stop ↦ ground arith
        | inr ((c'', w'), go) ↦ ground (
          arith,
          read_tag-Takes c,
          read_tag-Ahead c,
          run_arm-Ahead (arm_of field wire) wire c' c'' w w',
          walk_loop_enough f g c'' w',
        )
      ]
]

-- More fuel than the bytes of the segment changes nothing: the loop of `decode_segment` ends.
pub decode_segment_enough :
    (fuel : ℕ) (bytes : List ℕ)
    → length bytes ≤ fuel
    → finish (walk_loop fuel (new bytes) start) ≡ decode_segment bytes
unfolding decode_segment new
decode_segment_enough fuel bytes h =
    ap finish (walk_loop_enough fuel (length bytes) (new bytes) start (omega arith) (omega arith))

body_loop_enough :
    (f g : ℕ) (c : Cursor) (out : List ParsedSegment)
    → left c ≤ f
    → left c ≤ g
    → body_loop f c out ≡ body_loop g c out
unfolding body_loop
body_loop_enough zero zero c out hf hg = refl
body_loop_enough zero (suc g) c out hf hg = ground (arith, read_tag-Takes c)
body_loop_enough (suc f) zero c out hf hg = ground (arith, read_tag-Takes c)
body_loop_enough (suc f) (suc g) c out hf hg = elim (Option-cases (read_tag c).0) [
  | inl e ↦ ground arith
  | inr ((field, wire), e) ↦
      let c' : Cursor = (read_tag c).1 in
      elim (Option-cases (read_len_bytes c').0) [
        | inl e' ↦ ground (
          arith,
          read_tag-Takes c,
          read_tag-Ahead c,
          skip-Ahead wire c',
          body_loop_enough f g (skip wire c').1 out,
        )
        | inr (bytes, e') ↦ ground (
          arith,
          read_tag-Takes c,
          read_tag-Ahead c,
          skip-Ahead wire c',
          read_len_bytes-Ahead c',
          body_loop_enough f g (skip wire c').1 out,
          body_loop_enough f g (read_len_bytes c').1 (out ++ decode_segment bytes ∷ []),
        )
      ]
]

-- The loop of `parse_msg_body` ends on every input: with any fuel from the length of the blob on it
-- gives the result of `parse_msg_body`.
pub parse_msg_body_enough :
    (fuel : ℕ) (blob : List ℕ)
    → length blob ≤ fuel
    → body_loop fuel (new blob) [] ≡ parse_msg_body blob
unfolding parse_msg_body new
parse_msg_body_enough fuel blob h =
    body_loop_enough fuel (length blob) (new blob) [] (omega arith) (omega arith)
