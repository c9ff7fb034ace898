-- ===== src/Proto/Varint.antt =====
-- `read_varint` undoes `enc_varint`, wherever the number stands in the buffer.
use mathlib.Core.List.{append_assoc, append-nil}
use native.Mathlib.Numerals.{towards_suc}
use native.Mathlib.Nat.{pow-suc, div-add-mod, mod-eq_of_lt}
use qqflow_server.Prelude.{
  ℕ, zero, suc, ◌+◌, ◌*◌, ◌/◌, ◌%◌, ◌^◌, ◌<◌, bit_and, bit_or, ◌≡◌, sym, ap, some, List, [], ◌∷◌,
  ◌++◌, arith, ◌==◌, if◌then◌else◌, length, drop, get_elem?-drop, drop-append_self, length-append,
  ◌∙◌, drop-next, false,
}
use qqflow_server.Prelude.Bits.{bit_or_shifted, low_seven, top_bit, set_top}
use qqflow_server.Proto.Cursor.{varint_loop, read_varint, shl64}
use qqflow_server.Proto.Encode.{enc_loop, enc_varint}

-- The groups of seven bits of `v`, lowest first.
unfoldable pub groups : ℕ → ℕ → List ℕ
groups zero v = []
groups (suc n) v =
    let rest = groups n (v / 128) in if v / 128 == 0 then v % 128 ∷ [] else (v % 128 + 128) ∷ rest

low_group : (v : ℕ) → bit_and v 0x7f % 256 ≡ v % 128
low_group v = rw low_seven (omega arith)

enc_loop-groups : (n v : ℕ) (out : List ℕ) → enc_loop n v out ≡ out ++ groups n v
unfolding enc_loop groups
enc_loop-groups zero v out = sym (append-nil out)
enc_loop-groups (suc n) v out = ground (
  arith,
  low_group v,
  set_top (v % 128) (omega arith),
  enc_loop-groups n (v / 128) (out ++ (v % 128 + 128) ∷ []),
  append_assoc out ((v % 128 + 128) ∷ []) (groups n (v / 128)),
)

-- The encoder appends the groups, whatever stands before them.
pub enc_varint-groups : (v : ℕ) (out : List ℕ) → enc_varint v out ≡ out ++ groups 10 v
unfolding enc_varint
enc_varint-groups v out = enc_loop-groups 10 v out

shift_seven : (i : ℕ) → 2 ^ (7 * (i + 1)) ≡ 128 * 2 ^ (7 * i)
shift_seven i =
    let e : 7 * (i + 1) ≡ 7 * i + 7 = omega arith in rw e (simp towards_suc (omega arith))

-- The lowest group and the others, each at its own shift.
split_shift : (v i : ℕ) → v * 2 ^ (7 * i) ≡ v % 128 * 2 ^ (7 * i) + v / 128 * 2 ^ (7 * (i + 1))
split_shift v i = omega (
  arith,
  ap (λ (t : ℕ). t * 2 ^ (7 * i)) (div-add-mod v 128),
  ap (λ (t : ℕ). v / 128 * t) (shift_seven i),
)

group_fits : (acc g p : ℕ) → acc < p → g < 128 → acc + g * p < 128 * p
group_fits acc g p h k = grind arith

-- One group is added above what was read before it.
add_group :
    (acc g i : ℕ)
    → acc < 2 ^ (7 * i)
    → g * 2 ^ (7 * i) < 2 ^ 64
    → bit_or acc (shl64 g (7 * i)) ≡ acc + g * 2 ^ (7 * i)
add_group acc g i h k = rw (mod-eq_of_lt k) (bit_or_shifted (7 * i) acc g h)

rounds_left : (n v : ℕ) → v < 128 ^ suc n → (v / 128 == 0) ≡ false → 0 < n
rounds_left zero v h e = ground arith
rounds_left (suc n) v h e = omega arith

module _ (n i acc : ℕ) (buf : List ℕ) (pos : ℕ) (rest : List ℕ) (room : acc < 2 ^ (7 * i)) where
  last_round :
      (b : ℕ)
      → drop pos buf ≡ b ∷ rest
      → b < 128
      → b * 2 ^ (7 * i) < 2 ^ 64
      → varint_loop (suc n) i acc (record { buf = buf; pos = pos })
        ≡ (some (acc + b * 2 ^ (7 * i)), record { buf = buf; pos = pos + 1 })
  unfolding varint_loop
  last_round b at hb fits =
      ground (arith, get_elem?-drop pos buf at, low_seven b, top_bit b, add_group acc b i)

  inner_round :
      (g : ℕ)
      → drop pos buf ≡ (g + 128) ∷ rest
      → g < 128
      → g * 2 ^ (7 * i) < 2 ^ 64
      → varint_loop (suc n) i acc (record { buf = buf; pos = pos })
        ≡ varint_loop n (i + 1) (acc + g * 2 ^ (7 * i)) (record { buf = buf; pos = pos + 1 })
  unfolding varint_loop
  inner_round g at hg fits =
      ground (
        arith,
        get_elem?-drop pos buf at,
        low_seven (g + 128),
        top_bit (g + 128),
        add_group acc g i,
      )

varint_loop-groups :
    (n i v acc : ℕ) (buf : List ℕ) (pos : ℕ) (rest : List ℕ)
    → drop pos buf ≡ groups n v ++ rest
    → v < 128 ^ n
    → 0 < n
    → acc < 2 ^ (7 * i)
    → v * 2 ^ (7 * i) < 2 ^ 64
    → varint_loop n i acc (record { buf = buf; pos = pos })
      ≡ (some (acc + v * 2 ^ (7 * i)), record { buf = buf; pos = pos + length (groups n v) })
unfolding groups
varint_loop-groups zero i v acc buf pos rest at fits some_round hacc hv = absurd (omega arith)
varint_loop-groups (suc n) i v acc buf pos rest at fits some_round hacc hv = ground (
  arith,
  last_round n i acc buf pos rest hacc (v % 128),
  inner_round n i acc buf pos (groups n (v / 128) ++ rest) hacc (v % 128),
  drop-next pos buf {x = v % 128 + 128} {rest = groups n (v / 128) ++ rest},
  varint_loop-groups n (i + 1) (v / 128) (acc + v % 128 * 2 ^ (7 * i)) buf (pos + 1) rest,
  split_shift v i,
  group_fits acc (v % 128) (2 ^ (7 * i)),
  shift_seven i,
  rounds_left n v,
  pow-suc 128 n,
)

-- `read_varint` at an encoded `u64` returns it and stops behind its last byte.
pub read_varint-groups :
    (v : ℕ) (buf : List ℕ) (pos : ℕ) (rest : List ℕ)
    → v < 2 ^ 64
    → drop pos buf ≡ groups 10 v ++ rest
    → read_varint (record { buf = buf; pos = pos })
      ≡ (some v, record { buf = buf; pos = pos + length (groups 10 v) })
unfolding read_varint
read_varint-groups v buf pos rest h at =
    let e : 0 + v * 2 ^ (7 * 0) ≡ v = omega arith in
    rw e at (
      varint_loop-groups 10 0 v 0 buf pos rest at (omega arith) (omega arith) (omega arith)
        (omega arith))

-- Behind any prefix and before any rest: what `enc_varint` appended is read back, and the cursor
-- stands behind it.
pub read_varint-enc_varint :
    (v : ℕ) (before rest : List ℕ)
    → v < 2 ^ 64
    → read_varint (record { buf = enc_varint v before ++ rest; pos = length before })
      ≡ (some v, record { buf = enc_varint v before ++ rest; pos = length (enc_varint v before) })
read_varint-enc_varint v before rest h =
    let e : enc_varint v before ≡ before ++ groups 10 v = enc_varint-groups v before in
    let at : drop (length before) (enc_varint v before ++ rest) ≡ groups 10 v ++ rest =
      ap (λ l. drop (length before) (l ++ rest)) e
      ∙ ap (drop (length before)) (append_assoc before (groups 10 v) rest)
      ∙ drop-append_self before (groups 10 v ++ rest) in
    read_varint-groups v (enc_varint v before ++ rest) (length before) rest h at
    ∙ ap (λ q. (some v, record { buf = enc_varint v before ++ rest; pos = q }))
        (sym (ap length e ∙ length-append before (groups 10 v)))
