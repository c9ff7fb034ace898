-- ===== src/Proto/Encode.antt =====
-- The protobuf encoder of parser/proto.rs (its `tests` module), which the reader has to undo.
use qqflow_server.Prelude.{
  ℕ, zero, suc, ◌*◌, ◌/◌, ◌%◌, bit_and, bit_or, List, [], ◌∷◌, ◌++◌, ◌==◌, if◌then◌else◌, length,
}

-- `loop { … }` of `enc_varint`; a `u64` takes ten rounds at most, which is the fuel.
unfoldable pub enc_loop : ℕ → ℕ → List ℕ → List ℕ
enc_loop zero v out = out
enc_loop (suc n) v out =
    let b = bit_and v 0x7f % 256 in
    let more = enc_loop n (v / 128) (out ++ bit_or b 0x80 ∷ []) in
    if v / 128 == 0 then out ++ b ∷ [] else more

unfoldable pub enc_varint : ℕ → List ℕ → List ℕ
enc_varint v out = enc_loop 10 v out

unfoldable pub enc_field : ℕ → ℕ → List ℕ → List ℕ → List ℕ
enc_field field wire payload out = enc_varint (bit_or (field * 8) wire) out ++ payload

unfoldable pub varint_field : ℕ → ℕ → List ℕ → List ℕ
varint_field field v out = enc_field field 0 (enc_varint v []) out

unfoldable pub bytes_field : ℕ → List ℕ → List ℕ → List ℕ
bytes_field field bytes out = enc_field field 2 (enc_varint (length bytes) [] ++ bytes) out

abbrev pub field_msg_content : ℕ
field_msg_content = 40800

unfoldable pub segment : List ℕ → List ℕ
segment fields = bytes_field field_msg_content fields []
