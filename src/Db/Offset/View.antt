-- ===== src/Db/Offset/View.antt =====
-- db/vfs.rs: a shifted file is the file without its header.
use mathlib.Core.Path.{subst}
use mathlib.Core.Option.{some-injective}
use qqflow_server.Prelude.{
  ℕ, zero, suc, ◌+◌, ◌-◌, ◌≤◌, ◌≡◌, refl, sym, ap, ◌∙◌, Option, some, List, [], ◌∷◌, ◌++◌, take,
  drop, length, length-drop, drop-drop, length-append, Option-cases, inl, inr, drop-nil, take-nil,
  arith,
}
use qqflow_server.Db.Offset.{
  custom_header_len, Code, sqlite_ok, sqlite_error, sqlite_nomem, other_code, Methods, x_read,
  x_write, x_file_size, x_fetch, x_truncate, logical_size, offset_io_methods,
}

-- The bytes of a file after a write: what lies behind its end is zero.
abbrev pub overwrite : List ℕ → ℕ → List ℕ → List ℕ
overwrite buf zero bytes = buf ++ drop (length buf) bytes
overwrite buf (suc ofst) [] = 0 ∷ overwrite buf ofst []
overwrite buf (suc ofst) (b ∷ bytes) = b ∷ overwrite buf ofst bytes

-- What the documentation of SQLite asks of the methods where they succeed: a file that is `valid`
-- is its bytes, `content`.
pub record IsFile {F : Type 0} (m : Methods F) (valid : F → Type 0) (content : F → List ℕ)
    : Type 0 where
  pub read_lem :
      (op : F → ℕ → ℕ → Code × List ℕ)
      → m.read ≡ some op
      → (f : F) (amt ofst : ℕ) → valid f
      → (op f amt ofst).0 ≡ sqlite_ok
      → (op f amt ofst).1 ≡ take amt (drop ofst (content f))
  pub write_lem :
      (op : F → List ℕ → ℕ → Code × F)
      → m.write ≡ some op
      → (f : F) (buf : List ℕ) (ofst : ℕ) → valid f
      → (op f buf ofst).0 ≡ sqlite_ok
      → valid (op f buf ofst).1 × (content (op f buf ofst).1 ≡ overwrite buf ofst (content f))
  pub size_lem :
      (op : F → Code × ℕ)
      → m.file_size ≡ some op
      → (f : F) → valid f
      → (op f).0 ≡ sqlite_ok
      → (op f).1 ≡ length (content f)
  pub fetch_lem :
      (op : F → ℕ → ℕ → Code × Option (List ℕ))
      → m.fetch ≡ some op
      → (f : F) (ofst amt : ℕ) (page : List ℕ) → valid f
      → (op f ofst amt).1 ≡ some page
      → page ≡ take amt (drop ofst (content f))

length-overwrite :
    (buf : List ℕ) (ofst : ℕ) (bytes : List ℕ) → length bytes ≤ length (overwrite buf ofst bytes)
length-overwrite buf zero bytes =
    omega (arith, length-append buf (drop (length buf) bytes), length-drop (length buf) bytes)
length-overwrite buf (suc ofst) [] = omega arith
length-overwrite buf (suc ofst) (b ∷ bytes) = omega (arith, length-overwrite buf ofst bytes)

-- A write behind the first `k` bytes is a write to the bytes behind them.
drop-overwrite :
    (k : ℕ) (buf : List ℕ) (ofst : ℕ) (bytes : List ℕ)
    → k ≤ length bytes
    → drop k (overwrite buf (k + ofst) bytes) ≡ overwrite buf ofst (drop k bytes)
drop-overwrite zero buf ofst bytes h = let e : zero + ofst ≡ ofst = omega arith in rw e refl
drop-overwrite (suc k) buf ofst [] h = absurd (omega (arith, h))
drop-overwrite (suc k) buf ofst (b ∷ bytes) h =
    let e : suc k + ofst ≡ suc (k + ofst) = omega arith in
    rw e (drop-overwrite k buf ofst bytes (omega (arith, h)))

logical_size-ok :
    (r : Code × ℕ)
    → (logical_size r).0 ≡ sqlite_ok
    → (r.0 ≡ sqlite_ok) × ((logical_size r).1 ≡ r.1 - custom_header_len)
logical_size-ok (sqlite_ok, n) h = (refl, refl)
logical_size-ok (sqlite_error, n) h = absurd (cc h)
logical_size-ok (sqlite_nomem, n) h = absurd (cc h)
logical_size-ok (other_code k, n) h = absurd (cc h)

drop-take : (k n : ℕ) (bytes : List ℕ) → drop k (take n bytes) ≡ take (n - k) (drop k bytes)
drop-take zero n bytes = let e : n - zero ≡ n = omega arith in rw e refl
drop-take (suc k) zero bytes = let e : zero - suc k ≡ zero = omega arith in rw e (drop-nil (suc k))
drop-take (suc k) (suc n) [] = sym (take-nil (suc n - suc k))
drop-take (suc k) (suc n) (b ∷ bytes) =
    let e : suc n - suc k ≡ n - k = omega arith in rw e (drop-take k n bytes)

module _ {F : Type 0} (parent : Methods F) (content : F → List ℕ) where
  abbrev pub IsAny : F → Type 0
  IsAny f = 0 ≤ length (content f)

  abbrev pub HasHeader : F → Type 0
  HasHeader f = custom_header_len ≤ length (content f)

  abbrev pub view : F → List ℕ
  view f = drop custom_header_len (content f)

  behind : (f : F) (ofst : ℕ) → drop (ofst + custom_header_len) (content f) ≡ drop ofst (view f)
  behind f ofst =
      let e : ofst + custom_header_len ≡ custom_header_len + ofst = omega arith in
      ap (λ n. drop n (content f)) e ∙ sym (drop-drop ofst custom_header_len (content f))

  shifted_read :
      IsFile parent IsAny content
      → (f : F) (amt ofst : ℕ) → (x_read parent f amt ofst).0 ≡ sqlite_ok
      → (x_read parent f amt ofst).1 ≡ take amt (drop ofst (view f))
  shifted_read file f amt ofst h = elim (Option-cases parent.read) [
    | inl e ↦ absurd (cc (rw (x_read, e) at h))
    | inr (op, e) ↦
        let found =
          file.read_lem op e f amt (ofst + custom_header_len) (omega arith) (rw (x_read, e) at h) in
        rw (x_read, e) (found ∙ ap (take amt) (behind f ofst))
  ]

  shifted_write :
      IsFile parent IsAny content
      → (f : F) (buf : List ℕ) (ofst : ℕ) → HasHeader f
      → (x_write parent f buf ofst).0 ≡ sqlite_ok
      → HasHeader (x_write parent f buf ofst).1
        × (view (x_write parent f buf ofst).1 ≡ overwrite buf ofst (view f))
  shifted_write file f buf ofst header h = elim (Option-cases parent.write) [
    | inl e ↦ absurd (cc (rw (x_write, e) at h))
    | inr (op, e) ↦
        let at_end = ofst + custom_header_len in
        let e' : at_end ≡ custom_header_len + ofst = omega arith in
        let w = file.write_lem op e f buf at_end (omega arith) (rw (x_write, e) at h) in
        let longer = length-overwrite buf at_end (content f) in
        rw (x_write, e)
          (
            omega (arith, header, longer, ap (λ (l : List ℕ). length l) w.1),
            ap (drop custom_header_len) (w.1 ∙ ap (λ n. overwrite buf n (content f)) e')
                ∙ drop-overwrite custom_header_len buf ofst (content f) header,
          )
  ]

  shifted_size :
      IsFile parent IsAny content
      → (f : F) → (x_file_size parent f).0 ≡ sqlite_ok
      → (x_file_size parent f).1 ≡ length (view f)
  shifted_size file f h = elim (Option-cases parent.file_size) [
    | inl e ↦ absurd (cc (rw (x_file_size, e) at h))
    | inr (op, e) ↦
        let ok = logical_size-ok (op f) (rw (x_file_size, e) at h) in
        let size = file.size_lem op e f (omega arith) ok.0 in
        rw (x_file_size, e)
          (ok.1
            ∙ ap (λ (n : ℕ). n - custom_header_len) size
            ∙ sym (length-drop custom_header_len (content f)))
  ]

  shifted_fetch :
      IsFile parent IsAny content
      → (f : F) (ofst amt : ℕ) (page : List ℕ) → (x_fetch parent f ofst amt).1 ≡ some page
      → page ≡ take amt (drop ofst (view f))
  shifted_fetch file f ofst amt page h = elim (Option-cases parent.fetch) [
    | inl e ↦ absurd (cc (rw (x_fetch, e) at h))
    | inr (op, e) ↦
        file.fetch_lem op e f (ofst + custom_header_len) amt page (omega arith)
          (rw (x_fetch, e) at h)
        ∙ ap (take amt) (behind f ofst)
  ]

  -- Where the methods of the layer below read and write the bytes of a file, under the shifted methods
  -- a file that holds its header is the file without it: reads, writes,
  -- fetched pages and the size are those of the bytes behind the header, and a write keeps the
  -- header.
  pub offset_io_methods-IsFile :
      IsFile parent IsAny content → IsFile (offset_io_methods parent) HasHeader view
  unfolding offset_io_methods
  offset_io_methods-IsFile file = record {
    read_lem = λ op e f amt ofst header h.
        let same = some-injective (x_read parent) op e in
        ap (λ g. (g f amt ofst).1) (sym same)
        ∙ shifted_read file f amt ofst (ap (λ g. (g f amt ofst).0) same ∙ h);
    write_lem = λ op e f buf ofst header h.
        let same = some-injective (x_write parent) op e in
        subst
          (λ g. HasHeader (g f buf ofst).1 × (view (g f buf ofst).1 ≡ overwrite buf ofst (view f)))
          same (shifted_write file f buf ofst header (ap (λ g. (g f buf ofst).0) same ∙ h));
    size_lem = λ op e f header h.
        let same = some-injective (x_file_size parent) op e in
        ap (λ g. (g f).1) (sym same) ∙ shifted_size file f (ap (λ g. (g f).0) same ∙ h);
    fetch_lem = λ op e f ofst amt page header h.
        let same = some-injective (x_fetch parent) op e in
        shifted_fetch file f ofst amt page (ap (λ g. (g f ofst amt).1) same ∙ h);
  }

  -- `xTruncate` is passed on with the size that SQLite asks for: where the layer below cuts a file to
  -- the size that it is given, and succeeds, the file that SQLite sees, cut to a `size` that it has,
  -- loses the last 1024 bytes that it was to keep.
  pub x_truncate_short :
      (op : F → ℕ → Code × F)
      → parent.truncate ≡ some op
      → ((f : F) (size : ℕ)
          → (op f size).0 ≡ sqlite_ok
          → content (op f size).1 ≡ take size (content f))
      → (f : F) (size : ℕ) → size ≤ length (view f)
      → (x_truncate parent f size).0 ≡ sqlite_ok
      → view (x_truncate parent f size).1 ≡ take (size - custom_header_len) (view f)
  x_truncate_short op e cut f size h done =
      rw (x_truncate, e)
        (ap (drop custom_header_len) (cut f size (rw (x_truncate, e) at done))
          ∙ drop-take custom_header_len size (content f))
