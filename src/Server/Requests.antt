-- ===== src/Server/Requests.antt =====
-- server/auth.rs, server/handlers/mod.rs and the token test of config.rs: who may ask, and how the
-- parameters of a query and of a POST body become one. The values of JSON and the conversions of
-- the parameters are serde's, and so is an interface.
pub mod Access
pub mod Merged
use Prim.Native.Nat.{bit_or, bit_xor}
use qqflow_server.Prelude.{
  ℕ, Bool, true, false, not, ◌||◌, Option, none, some, List, [], ◌∷◌, ◌++◌, length, drop, ◌==◌,
  and_then, filter_some, map_some, if◌then◌else◌,
}
use qqflow_server.Prelude.Dict.{Dict, get, insert}
use qqflow_server.Text.{Text, utf8, text_eq, text_key, is_empty, starts_with}
use qqflow_server.Text.Chars.{trim}

-- `zip` and `fold` of `constant_time_eq`.
unfoldable pub gather : ℕ → Text → Text → ℕ
gather acc [] t = acc
gather acc (x ∷ xs) [] = acc
gather acc (x ∷ xs) (y ∷ ys) = gather (bit_or acc (bit_xor x y)) xs ys

unfoldable pub constant_time_eq : Text → Text → Bool
unfolding gather
constant_time_eq a b = if not (length a == length b) then false else gather 0 a b == 0

-- `str::strip_prefix`
abbrev pub strip_prefix : Text → Text → Option Text
strip_prefix p s = if starts_with p s then some (drop (length p) s) else none

-- `authorization` is the header as a string, if there is one.
unfoldable pub bearer : Option Text → Option Text
unfolding trim
bearer authorization =
    filter_some (λ token. not (is_empty token))
      (map_some trim (and_then authorization (strip_prefix (utf8 "Bearer "))))

abbrev pub accepts : Text → Option Text → Bool
accepts token none = false
accepts token (some t) = constant_time_eq t token

unfoldable pub authorized : Text → Option Text → Option Text → Bool
authorized token authorization query_token =
    accepts token query_token || accepts token (bearer authorization)

pub data ApiError : Type 0 where
  bad_request : Text → ApiError
  unauthorized : ApiError
  not_ready : ApiError

pub data Result (A : Type 0) (E : Type 0) : Type 0 where
  ok : A → Result A E
  err : E → Result A E

-- What the source calls of serde for the parameters `T` of a handler and the values `V` of JSON.
pub record Serde (T : Type 0) (V : Type 0) : Type 0 where
  pub from_slice : Text → Option V
  pub as_object : V → Option (Dict Text V)
  pub object : Dict Text V → V
  pub is_null : V → Bool
  pub to_value : T → Result V Text
  pub from_value : V → Result T Text

abbrev pub is_credential : Text → Bool
is_credential k = text_eq k (utf8 "access_token") || text_eq k (utf8 "token")

-- `retain` with a test on the values.
abbrev pub retain : {V : Type 0} → (V → Bool) → Dict Text V → Dict Text V
retain p [] = []
retain p ((k, v) ∷ d) = elim (p v) [ true ↦ (k, v) ∷ retain p d | false ↦ retain p d ]

module _ {T V : Type 0} (s : Serde T V) where
  unfoldable pub merge_keys : Dict Text V → Dict Text V → Dict Text V
  merge_keys [] m = m
  merge_keys ((k, val) ∷ obj) m = elim (is_credential k || s.is_null val) [
    | true ↦ merge_keys obj m
    | false ↦ merge_keys obj (insert k val m)
  ]

  unfoldable pub merged_value : Dict Text V → V → V
  unfolding merge_keys
  merged_value obj merged = elim (s.as_object merged) [
    | none ↦ merged
    | some m ↦ s.object (retain (λ v. not (s.is_null v)) (merge_keys obj m))
  ]

  abbrev pub from_merged : Result T Text → Result T ApiError
  from_merged (Result.ok params) = Result.ok params
  from_merged (Result.err e) = Result.err (ApiError.bad_request (utf8 "body 参数无效: " ++ e))

  abbrev pub merge_object : T → Dict Text V → Result T ApiError
  merge_object params obj = elim (s.to_value params) [
    | Result.err e ↦ Result.err (ApiError.bad_request (utf8 "参数序列化失败: " ++ e))
    | Result.ok merged ↦ from_merged (s.from_value (merged_value obj merged))
  ]

  unfoldable pub merge_body : T → Text → Result T ApiError
  unfolding merged_value
  merge_body params body =
      if is_empty body then Result.ok params else elim (and_then (s.from_slice body) s.as_object) [
        | none ↦ Result.ok params
        | some obj ↦ merge_object params obj
      ]

  -- What a handler asks before it looks at the store.
  abbrev pub admit_params : (T → Option Text) → Text → Bool → Option Text → T → Result T ApiError
  admit_params access_token token ready authorization params =
      if not (authorized token authorization (access_token params))
      then Result.err ApiError.unauthorized
      else if not ready
      then Result.err ApiError.not_ready
      else Result.ok params

  unfoldable pub admit :
      (T → Option Text) → Text → Bool → Option Text → T → Text → Result T ApiError
  unfolding merge_body
  admit access_token token ready authorization params body = elim (merge_body params body) [
    | Result.err e ↦ Result.err e
    | Result.ok merged ↦ admit_params access_token token ready authorization merged
  ]
