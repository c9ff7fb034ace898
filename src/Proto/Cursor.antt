-- ===== src/Proto/Cursor.antt =====
-- The bounds-checked cursor of parser/proto.rs over a wire-format buffer.
-- A byte slice is a list of numbers below 256; a `u64` or `usize` is a number below 2 ^ 64.
use qqflow_server.Prelude.{
  ℕ, zero, suc, ◌+◌, ◌*◌, ◌/◌, ◌%◌, ◌^◌, bit_and, bit_or, Option, none, some, List, leb, ◌==◌,
  if◌then◌else◌, get_elem?, take, drop, length,
}

pub record Cursor : Type 0 where
  pub buf : List ℕ
  pub pos : ℕ

unfoldable pub new : List ℕ → Cursor
new buf = record { buf = buf; pos = 0 }

-- A method on `&mut self` that returns an `Option`: the cursor comes back on both paths.
abbrev pub Read : Type 0 → Type 0
Read A = Cursor → Option A × Cursor

-- `?` in a method: an early `None` keeps what was already consumed.
infixl 5 ◌>>=◌ ◌>>◌
abbrev pub ◌>>=◌ : {A B : Type 0} → Read A → (A → Read B) → Read B
◌>>=◌ m f c = let (r, c') = m c in elim r [ none ↦ (none, c') | some a ↦ f a c' ]

abbrev pub ◌>>◌ : {A B : Type 0} → Read A → Read B → Read B
m >> n = m >>= λ _. n

abbrev pub done : {A : Type 0} → A → Read A
done a c = (some a, c)

abbrev pub fail : {A : Type 0} → Read A
fail c = (none, c)

-- `(x as u64) << k`
abbrev pub shl64 : ℕ → ℕ → ℕ
shl64 x k = x * 2 ^ k % 2 ^ 64

-- The loop `for i in 0..10`; the first argument counts the rounds left.
unfoldable pub varint_loop : ℕ → ℕ → ℕ → Read ℕ
varint_loop zero i v c = (none, c)
varint_loop (suc n) i v c = elim (get_elem? c.buf c.pos) [
  | none ↦ (none, c)
  | some b ↦
      let c' = record c { pos = c.pos + 1 } in
      let v' = bit_or v (shl64 (bit_and b 0x7f) (7 * i)) in
      let more = varint_loop n (i + 1) v' c' in if bit_and b 0x80 == 0 then (some v', c') else more
]

unfoldable pub read_varint : Read ℕ
read_varint = varint_loop 10 0 0

unfoldable pub read_tag : Read (ℕ × ℕ)
read_tag = do tag ← read_varint; done (tag / 8, bit_and tag 7)

-- `checked_add` fails past `usize::MAX`, and `get(pos..end)` past the end of the buffer.
unfoldable pub read_bytes : ℕ → Read (List ℕ)
read_bytes len c =
    if leb (2 ^ 64) (c.pos + len)
    then (none, c)
    else if leb (c.pos + len) (length c.buf)
    then (some (take len (drop c.pos c.buf)), record c { pos = c.pos + len })
    else (none, c)

unfoldable pub read_len_bytes : Read (List ℕ)
read_len_bytes = do len ← read_varint; read_bytes len

unfoldable pub skip : ℕ → Read (Unit {0})
skip wire =
    if wire == 0
    then (do read_varint; done tt)
    else if wire == 1
    then (do read_bytes 8; done tt)
    else if wire == 2
    then (do read_len_bytes; done tt)
    else if wire == 5
    then (do read_bytes 4; done tt)
    else fail
