-- ===== src/Proto/RoundTrip.antt =====
-- The walk of `decode_segment` over encoded fields is a fold, and `parse_msg_body` gives back the
-- segments of an encoded body.
use mathlib.Core.List.{append_assoc, append-nil}
use qqflow_server.Prelude.{
  ℕ, zero, suc, ◌+◌, ◌*◌, ◌^◌, ◌≤◌, ◌<◌, ◌≡◌, refl, sym, ap, ◌∙◌, none, some, List, [], ◌∷◌, ◌++◌,
  arith, length, length-append, drop, length-drop, drop-past, past_inside, take, take-append_self,
  All,
}
use qqflow_server.Prelude.Bits.{bit_or_low_three, low_three}
use qqflow_server.Proto.Cursor.{
  Cursor, new, read_varint, read_tag, read_bytes, read_len_bytes, skip,
}
use qqflow_server.Proto.Encode.{enc_field, varint_field, bytes_field}
use qqflow_server.Proto.Varint.{groups, enc_varint-groups, read_varint-groups}
use qqflow_server.Proto.Segment.{
  Walk, arm_of, run_arm, set_number, set_bytes, walk_loop, start, finish, decode_segment,
}
use qqflow_server.Proto.Reads.{read_tag-Takes}

-- One field of a message: a varint, or a length-delimited value.
pub data Field : Type 0 where
  number : ℕ → ℕ → Field
  bytes : ℕ → List ℕ → Field

-- The field number and the value, or the length, fit a `u64`.
abbrev pub Fits : Field → Type 0
Fits (number f v) = (f < 2 ^ 61) × (v < 2 ^ 64)
Fits (bytes f b) = (f < 2 ^ 61) × (length b < 2 ^ 64)

unfoldable pub write_field : Field → List ℕ → List ℕ
write_field (number f v) out = varint_field f v out
write_field (bytes f b) out = bytes_field f b out

unfoldable pub write_fields : List Field → List ℕ → List ℕ
write_fields [] out = out
write_fields (x ∷ xs) out = write_fields xs (write_field x out)

-- What a field means: the arm of its number and wire type takes its value.
unfoldable pub apply_field : Field → Walk → Walk
apply_field (number f v) w = set_number (arm_of f 0) (some v) w
apply_field (bytes f b) w = set_bytes (arm_of f 2) (some b) w

unfoldable pub apply_fields : List Field → Walk → Walk
apply_fields [] w = w
apply_fields (x ∷ xs) w = apply_fields xs (apply_field x w)

-- The bytes of a field.
unfoldable pub field_bytes : Field → List ℕ
field_bytes (number f v) = groups 10 (f * 8 + 0) ++ groups 10 v
field_bytes (bytes f b) = groups 10 (f * 8 + 2) ++ (groups 10 (length b) ++ b)

fields_bytes : List Field → List ℕ
fields_bytes [] = []
fields_bytes (x ∷ xs) = field_bytes x ++ fields_bytes xs

pub write_field-bytes : (x : Field) (out : List ℕ) → write_field x out ≡ out ++ field_bytes x
unfolding write_field varint_field bytes_field enc_field field_bytes
write_field-bytes (number f v) out =
    simp (enc_varint-groups, bit_or_low_three f 0 (omega arith), append_assoc)
write_field-bytes (bytes f b) out =
    simp (enc_varint-groups, bit_or_low_three f 2 (omega arith), append_assoc)

module _ (buf : List ℕ) (pos : ℕ) where
  abbrev pub here : Cursor
  here = record { buf = buf; pos = pos }

  pub read_tag-groups :
      (f wire : ℕ) (rest : List ℕ)
      → f < 2 ^ 61
      → wire < 8
      → drop pos buf ≡ groups 10 (f * 8 + wire) ++ rest
      → read_tag here
        ≡ (some (f, wire), record { buf = buf; pos = pos + length (groups 10 (f * 8 + wire)) })
  unfolding read_tag
  read_tag-groups f wire rest hf hw at =
      ground (arith, read_varint-groups (f * 8 + wire) buf pos rest, low_three (f * 8 + wire))

  read_bytes-drop :
      (b rest : List ℕ)
      → drop pos buf ≡ b ++ rest
      → pos ≤ length buf
      → length buf < 2 ^ 64
      → read_bytes (length b) here ≡ (some b, record { buf = buf; pos = pos + length b })
  unfolding read_bytes
  read_bytes-drop b rest at hp hb =
      ground
        (arith, past_inside pos buf b rest, at, ap (take (length b)) at, take-append_self b rest)

number_step :
    (f v : ℕ) (c c' : Cursor) (w : Walk)
    → read_varint c ≡ (some v, c')
    → run_arm (arm_of f 0) 0 c w ≡ some (c', set_number (arm_of f 0) (some v) w)
unfolding arm_of run_arm set_number skip
number_step f v c c' w h = ground arith

bytes_step :
    (f : ℕ) (b : List ℕ) (c c' : Cursor) (w : Walk)
    → read_len_bytes c ≡ (some b, c')
    → run_arm (arm_of f 2) 2 c w ≡ some (c', set_bytes (arm_of f 2) (some b) w)
unfolding arm_of run_arm set_bytes skip
bytes_step f b c c' w h = ground arith

-- A length-delimited value: its length, then its bytes.
pub read_len_bytes-drop :
    (buf : List ℕ) (pos : ℕ) (b rest : List ℕ)
    → drop pos buf ≡ groups 10 (length b) ++ (b ++ rest)
    → pos ≤ length buf
    → length buf < 2 ^ 64
    → length b < 2 ^ 64
    → read_len_bytes (record { buf = buf; pos = pos })
      ≡ (some b, record { buf = buf; pos = pos + length (groups 10 (length b)) + length b })
unfolding read_len_bytes
read_len_bytes-drop buf pos b rest at hp hb hl =
    let pos' : ℕ = pos + length (groups 10 (length b)) in
    ground (
      arith,
      read_varint-groups (length b) buf pos (b ++ rest),
      read_bytes-drop buf pos' b rest,
      drop-past pos buf (groups 10 (length b)) (b ++ rest),
      past_inside pos buf (groups 10 (length b)) (b ++ rest),
    )

walk_round :
    (fuel f wire : ℕ) (c c₁ c₂ : Cursor) (w w' : Walk)
    → read_tag c ≡ (some (f, wire), c₁)
    → run_arm (arm_of f wire) wire c₁ w ≡ some (c₂, w')
    → walk_loop (suc fuel) c w ≡ walk_loop fuel c₂ w'
unfolding walk_loop
walk_round fuel f wire c c₁ c₂ w w' h k = ground arith

field_step :
    (x : Field) (fuel : ℕ) (buf : List ℕ) (pos : ℕ) (rest : List ℕ) (w : Walk)
    → Fits x
    → drop pos buf ≡ field_bytes x ++ rest
    → pos ≤ length buf
    → length buf < 2 ^ 64
    → walk_loop (suc fuel) (record { buf = buf; pos = pos }) w
      ≡ walk_loop fuel (record { buf = buf; pos = pos + length (field_bytes x) }) (apply_field x w)
unfolding apply_field field_bytes
field_step (number f v) fuel buf pos rest w fits at hp hb =
    let tag : List ℕ = groups 10 (f * 8 + 0) in
    let val : List ℕ = groups 10 v in
    let at' : drop pos buf ≡ tag ++ (val ++ rest) = at ∙ append_assoc tag val rest in
    walk_round fuel f 0 _ _ _ w _
      (read_tag-groups buf pos f 0 (val ++ rest) fits.0 (omega arith) at')
      (number_step f v _ _ w (
        read_varint-groups v buf (pos + length tag) rest fits.1
          (drop-past pos buf tag (val ++ rest) at')))
    ∙ ap (λ q. walk_loop fuel (record { buf = buf; pos = q }) (set_number (arm_of f 0) (some v) w))
        (omega (arith, length-append tag val))
field_step (bytes f b) fuel buf pos rest w fits at hp hb =
    let tag : List ℕ = groups 10 (f * 8 + 2) in
    let len : List ℕ = groups 10 (length b) in
    let at' : drop pos buf ≡ tag ++ (len ++ (b ++ rest)) =
      at ∙ append_assoc tag (len ++ b) rest ∙ ap (λ l. tag ++ l) (append_assoc len b rest) in
    walk_round fuel f 2 _ _ _ w _
      (read_tag-groups buf pos f 2 (len ++ (b ++ rest)) fits.0 (omega arith) at')
      (bytes_step f b _ _ w (
        read_len_bytes-drop buf (pos + length tag) b rest
          (drop-past pos buf tag (len ++ (b ++ rest)) at')
          (past_inside pos buf tag (len ++ (b ++ rest)) hp at') hb fits.1))
    ∙ ap (λ q. walk_loop fuel (record { buf = buf; pos = q }) (set_bytes (arm_of f 2) (some b) w))
        (omega (arith, length-append tag (len ++ b), length-append len b))

write_fields-bytes : (xs : List Field) (out : List ℕ) → write_fields xs out ≡ out ++ fields_bytes xs
unfolding write_fields fields_bytes
write_fields-bytes [] out = sym (append-nil out)
write_fields-bytes (x ∷ xs) out =
    write_fields-bytes xs (write_field x out)
    ∙ rw (write_field-bytes x out) (append_assoc out (field_bytes x) (fields_bytes xs))

pub read_tag_end :
    (buf : List ℕ) (pos : ℕ)
    → drop pos buf ≡ []
    → (read_tag (record { buf = buf; pos = pos })).0 ≡ none
read_tag_end buf pos at =
    ground
      (arith, read_tag-Takes (record { buf = buf; pos = pos }), ap length at, length-drop pos buf)

walk_end : (fuel : ℕ) (c : Cursor) (w : Walk) → (read_tag c).0 ≡ none → walk_loop fuel c w ≡ w
unfolding walk_loop
walk_end zero c w h = refl
walk_end (suc fuel) c w h = ground arith

pub length-groups : (v : ℕ) → 1 ≤ length (groups 10 v)
unfolding groups
length-groups v = ground arith

length-fields_bytes : (xs : List Field) → length xs ≤ length (fields_bytes xs)
unfolding fields_bytes field_bytes
length-fields_bytes [] = omega arith
length-fields_bytes (number f v ∷ xs) = omega (
  arith,
  length-append (groups 10 (f * 8 + 0) ++ groups 10 v) (fields_bytes xs),
  length-append (groups 10 (f * 8 + 0)) (groups 10 v),
  length-groups v,
  length-fields_bytes xs,
)
length-fields_bytes (bytes f b ∷ xs) = omega (
  arith,
  length-append (groups 10 (f * 8 + 2) ++ (groups 10 (length b) ++ b)) (fields_bytes xs),
  length-append (groups 10 (f * 8 + 2)) (groups 10 (length b) ++ b),
  length-groups (f * 8 + 2),
  length-fields_bytes xs,
)

walk_loop-fields :
    (xs : List Field) (fuel : ℕ) (buf : List ℕ) (pos : ℕ) (w : Walk)
    → All Fits xs
    → drop pos buf ≡ fields_bytes xs
    → pos ≤ length buf
    → length buf < 2 ^ 64
    → length xs ≤ fuel
    → walk_loop fuel (record { buf = buf; pos = pos }) w ≡ apply_fields xs w
unfolding fields_bytes apply_fields
walk_loop-fields [] fuel buf pos w fits at hp hb hf = walk_end fuel _ w (read_tag_end buf pos at)
walk_loop-fields (x ∷ xs) zero buf pos w fits at hp hb hf = absurd (omega arith)
walk_loop-fields (x ∷ xs) (suc fuel) buf pos w fits at hp hb hf =
    field_step x fuel buf pos (fields_bytes xs) w fits.0 at hp hb
    ∙ walk_loop-fields xs fuel buf (pos + length (field_bytes x)) (apply_field x w) fits.1
        (drop-past pos buf (field_bytes x) (fields_bytes xs) at)
        (past_inside pos buf (field_bytes x) (fields_bytes xs) hp at) hb (omega arith)

-- `decode_segment` on encoded fields: each field, known or not, has its effect in turn, so the last
-- value of a field stands, and unknown fields change nothing.
pub decode_segment-write_fields :
    (xs : List Field)
    → All Fits xs
    → length (write_fields xs []) < 2 ^ 64
    → decode_segment (write_fields xs []) ≡ finish (apply_fields xs start)
unfolding decode_segment new
decode_segment-write_fields xs fits short =
    let e : write_fields xs [] ≡ fields_bytes xs = write_fields-bytes xs [] in
    ap finish (
      walk_loop-fields xs (length (write_fields xs [])) (write_fields xs []) 0 start fits e
        (omega arith) short (rw e (length-fields_bytes xs)))
