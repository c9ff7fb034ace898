-- ===== src/Server/Requests/Access.antt =====
-- server/handlers/mod.rs, server/auth.rs: a request is admitted by what its query string or its
-- header carries, never by its body.
use native.Mathlib.Omega.{arith}
use qqflow_server.Prelude.{
  ℕ, ◌≡◌, refl, sym, ap, ◌∙◌, ◌⊎◌, inl, inr, Bool, true, Bool-cases, Option, none, some, [], ◌∷◌,
  length, ◌==◌,
}
use qqflow_server.Prelude.Bits.{zero-bit_or}
use qqflow_server.Prelude.Differ.{bit_xor_same, bit_or-bit_xor_zero}
use Prim.Native.Nat.{bit_or, bit_xor}
use qqflow_server.Text.{Text, text_eq, text_eq_refl, text_eq→eq, text_key}
use qqflow_server.Server.Requests.{
  gather, constant_time_eq, bearer, accepts, authorized, Result, Serde, merge_body, admit_params,
  admit,
}
use mathlib.Core.Path.{subst}
use qqflow_server.Server.Requests.Merged.{
  ReadsToken, Result-cases, Result-ok, merge_body-access_token,
}

gather_zero :
    (acc : ℕ) (a b : Text) → length a ≡ length b → gather acc a b ≡ 0 → (acc ≡ 0) × (a ≡ b)
unfolding gather
gather_zero acc [] [] same h = (h, refl)
gather_zero acc [] (y ∷ b) same h = absurd (omega (arith, same))
gather_zero acc (x ∷ a) [] same h = absurd (omega (arith, same))
gather_zero acc (x ∷ a) (y ∷ b) same h =
    let rest = gather_zero (bit_or acc (bit_xor x y)) a b (omega (arith, same)) h in
    let here = bit_or-bit_xor_zero acc x y rest.0 in
    (here.0, ap (λ z. z ∷ a) here.1 ∙ ap (λ t. y ∷ t) rest.1)

gather_same : (a : Text) → gather 0 a a ≡ 0
unfolding gather
gather_same [] = refl
gather_same (x ∷ a) = rw (bit_xor_same x x (omega arith)) (rw (zero-bit_or 0) (gather_same a))

length-text_eq : (a b : Text) → text_eq a b ≡ true → length a ≡ length b
length-text_eq a b h = ap (λ t. length t) (text_eq→eq a b h)

-- `constant_time_eq` answers whether the strings are equal.
pub constant_time_eq-text_eq : (a b : Text) → constant_time_eq a b ≡ text_eq a b
unfolding constant_time_eq
constant_time_eq-text_eq a b = elim (Bool-cases (text_eq a b)) [
  | inl same ↦
      let long = length-text_eq a b same in
      let zero : gather 0 a b ≡ 0 =
        ap (λ t. gather 0 a t) (sym (text_eq→eq a b same)) ∙ gather_same a in
      ground (arith, same, long, zero)
  | inr other ↦ elim (Bool-cases (length a == length b)) [
    | inr short ↦ ground (arith, other, short)
    | inl long ↦ elim (Bool-cases (gather 0 a b == 0)) [
      | inr apart ↦ ground (arith, other, long, apart)
      | inl zero ↦
          let eq = gather_zero 0 a b (ground (arith, long)) (ground (arith, zero)) in
          let same : text_eq a b ≡ true = ap (λ t. text_eq a t) (sym eq.1) ∙ text_eq_refl a in
          ground (arith, other, same)
    ]
  ]
]

-- The wanted token came in the query string or behind `Bearer ` in the header.
abbrev pub IsShown : Text → Option Text → Option Text → Type 0
IsShown token authorization query_token =
    (query_token ≡ some token) ⊎ (bearer authorization ≡ some token)

accepts-some : (token : Text) (o : Option Text) → accepts token o ≡ true → o ≡ some token
accepts-some token none h = ground (arith, h)
accepts-some token (some t) h =
    ap (λ x. some x) (text_eq→eq t token (sym (constant_time_eq-text_eq t token) ∙ h))

authorized-IsShown :
    (token : Text) (authorization query_token : Option Text)
    → authorized token authorization query_token ≡ true
    → IsShown token authorization query_token
unfolding authorized
authorized-IsShown token authorization query_token h =
    elim (Bool-cases (accepts token query_token)) [
      | inl own ↦ inl (accepts-some token query_token own)
      | inr other ↦ inr (accepts-some token (bearer authorization) (ground (arith, h, other)))
    ]

admit_params-ok :
    {T V : Type 0} (s : Serde T V) (access_token : T → Option Text) (token : Text) (ready : Bool)
    (authorization : Option Text) (params merged : T)
    → admit_params s access_token token ready authorization params ≡ Result.ok merged
    → (authorized token authorization (access_token params) ≡ true)
      × (ready ≡ true)
      × (params ≡ merged)
admit_params-ok s access_token token ready authorization params merged h =
    elim (Bool-cases (authorized token authorization (access_token params))) [
      | inr e ↦ absurd (cc (rw (admit_params, e) at h))
      | inl e ↦ elim (Bool-cases ready) [
        | inr late ↦ absurd (cc (rw (admit_params, e, late) at h))
        | inl now ↦ (
          e,
          now,
          Result-ok (Result.ok params) params merged refl (rw (admit_params, e, now) at h),
        )
      ]
    ]

-- A request that passes `merge_body` and the checks of a handler has shown the wanted token in its
-- query string or in its header, whatever its body says, the server is ready, and the handler
-- goes on with the merged parameters. The parameters have a field `access_token`, which serde
-- writes to its key and reads from it.
pub admit-IsShown :
    {T V : Type 0} (s : Serde T V) (access_token : T → Option Text)
    → ReadsToken s access_token
    → (token : Text) (ready : Bool) (authorization : Option Text) (params merged : T) (body : Text)
    → admit s access_token token ready authorization params body ≡ Result.ok merged
    → IsShown token authorization (access_token params)
      × (ready ≡ true)
      × (merge_body s params body ≡ Result.ok merged)
unfolding admit
admit-IsShown s access_token r token ready authorization params merged body h =
    elim (Result-cases (merge_body s params body)) [
      | inr (e, failed) ↦ absurd (cc (rw (admit, failed) at h))
      | inl (q, done) ↦
          let passed =
            admit_params-ok s access_token token ready authorization q merged
              (rw (admit, done) at h) in
          let same = merge_body-access_token s access_token r params q body done in
          let shown = authorized-IsShown token authorization (access_token q) passed.0 in
          (
            subst (λ t. IsShown token authorization t) same shown,
            passed.1,
            done ∙ ap (λ x. Result.ok x) passed.2,
          )
    ]
