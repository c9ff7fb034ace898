-- ===== src/Server/Requests/Merged.antt =====
-- server/handlers/mod.rs, merge_body: a body leaves the token of the query as it is.
use native.Mathlib.Omega.{arith}
use qqflow_server.Prelude.{
  ◌≡◌, refl, sym, ap, ◌∙◌, ◌⊎◌, inl, inr, Bool, true, false, not, ◌||◌, Bool-cases, Option, none,
  some, [], ◌∷◌, and_then, filter_some, Option-cases,
}
use qqflow_server.Prelude.Dict.{Dict, get, insert, modify, get-modify}
use qqflow_server.Text.{Text, utf8, text_eq, text_eq→eq, text_eq_sym, text_key, is_empty}
use qqflow_server.Server.Requests.{
  Result, Serde, is_credential, retain, merge_keys, merged_value, from_merged, merge_object,
  merge_body,
}

-- The keys of an object are distinct.
abbrev pub is_map : {V : Type 0} → Dict Text V → Bool
is_map [] = true
is_map ((k, v) ∷ d) = elim (get k d) [ some _ ↦ false | none ↦ is_map d ]

module _ {V : Type 0} where
  is_map-head :
      (k : Text) (v : V) (d : Dict Text V)
      → is_map ((k, v) ∷ d) ≡ true
      → (get k d ≡ none) × (is_map d ≡ true)
  is_map-head k v d h = elim (Option-cases (get k d)) [
    | inl e ↦ (e, rw (is_map, e) at h)
    | inr (w, e) ↦ absurd (ground (arith, rw (is_map, e) at h))
  ]

  is_map-new :
      (k : Text) (v : V) (d : Dict Text V)
      → get k d ≡ none
      → is_map d ≡ true
      → is_map ((k, v) ∷ d) ≡ true
  is_map-new k v d e h = rw (is_map, e) h

  get-insert_other :
      (j k : Text) (v : V) (d : Dict Text V) → text_eq k j ≡ false → get j (insert k v d) ≡ get j d
  get-insert_other j k v d h = rw (get-modify j k v (λ _. v) d) (rw h refl)

  insert-is_map :
      (k : Text) (v : V) (d : Dict Text V) → is_map d ≡ true → is_map (insert k v d) ≡ true
  insert-is_map k v [] h = refl
  insert-is_map k v ((j, w) ∷ d) h =
      let tail = is_map-head j w d h in
      elim (Bool-cases (text_eq j k)) [
        | inl own ↦
            let step : insert k v ((j, w) ∷ d) ≡ ((j, v) ∷ d) = rw (insert, modify, own) refl in
            ap (λ m. is_map m) step ∙ is_map-new j v d tail.0 tail.1
        | inr other ↦
            let step : insert k v ((j, w) ∷ d) ≡ ((j, w) ∷ insert k v d) =
              rw (insert, modify, other) refl in
            let new = get-insert_other j k v d (text_eq_sym j k other) ∙ tail.0 in
            ap (λ m. is_map m) step ∙ is_map-new j w (insert k v d) new (insert-is_map k v d tail.1)
      ]

  get-retain_absent :
      (p : V → Bool) (k : Text) (d : Dict Text V) → get k d ≡ none → get k (retain p d) ≡ none
  get-retain_absent p k [] h = refl
  get-retain_absent p k ((j, v) ∷ d) h = elim (Bool-cases (text_eq j k)) [
    | inl own ↦ absurd (ground (arith, rw (get, own) at h))
    | inr other ↦
        let rest = get-retain_absent p k d (rw (get, other) at h) in
        elim (Bool-cases (p v)) [
          | inl kept ↦ rw (retain, kept) (rw (get, other) rest)
          | inr lost ↦ rw (retain, lost) rest
        ]
  ]

  -- In an object, `retain` keeps the values that pass.
  get-retain :
      (p : V → Bool) (k : Text) (d : Dict Text V)
      → is_map d ≡ true
      → get k (retain p d) ≡ filter_some p (get k d)
  get-retain p k [] h = refl
  get-retain p k ((j, v) ∷ d) h =
      let tail = is_map-head j v d h in
      let rest = get-retain p k d tail.1 in
      elim (Bool-cases (text_eq j k)) [
        | inr other ↦ elim (Bool-cases (p v)) [
          | inl kept ↦ rw (retain, kept) (rw (get, other) rest)
          | inr lost ↦ rw (retain, lost) (rw (get, other) rest)
        ]
        | inl own ↦ elim (Bool-cases (p v)) [
          | inl kept ↦ rw (retain, kept) (rw (get, own) (rw (filter_some, kept) refl))
          | inr lost ↦
              let none_left : get k d ≡ none =
                ap (λ i. get i d) (sym (text_eq→eq j k own)) ∙ tail.0 in
              rw (retain, lost)
                (rw (get, own) (rw (filter_some, lost) (get-retain_absent p k d none_left)))
        ]
      ]

module _ {T V : Type 0} (s : Serde T V) where
  merge_keys-is_map : (obj m : Dict Text V) → is_map m ≡ true → is_map (merge_keys s obj m) ≡ true
  unfolding merge_keys
  merge_keys-is_map [] m h = h
  merge_keys-is_map ((k, v) ∷ obj) m h = elim (Bool-cases (is_credential k || s.is_null v)) [
    | inl passed ↦ rw (merge_keys, passed) (merge_keys-is_map obj m h)
    | inr set ↦ rw (merge_keys, set) (merge_keys-is_map obj (insert k v m) (insert-is_map k v m h))
  ]

  -- No key of a body is that of a credential.
  get-merge_keys :
      (j : Text) (obj m : Dict Text V)
      → is_credential j ≡ true
      → get j (merge_keys s obj m) ≡ get j m
  unfolding merge_keys
  get-merge_keys j [] m h = refl
  get-merge_keys j ((k, v) ∷ obj) m h = elim (Bool-cases (is_credential k || s.is_null v)) [
    | inl passed ↦ rw (merge_keys, passed) (get-merge_keys j obj m h)
    | inr set ↦
        let plain : is_credential k ≡ false = ground (arith, set) in
        let other : text_eq k j ≡ false = elim (Bool-cases (text_eq k j)) [
          | inr e ↦ e
          | inl e ↦
              let same : is_credential k ≡ is_credential j =
                ap (λ x. is_credential x) (text_eq→eq k j e) in
              ground (arith, same, plain, h)
        ] in
        rw (merge_keys, set)
          (get-merge_keys j obj (insert k v m) h ∙ get-insert_other j k v m other)
  ]

abbrev pub token_key : Text
token_key = utf8 "access_token"

-- What serde does with the parameters of a handler that have a field `access_token`: they are
-- written as an object, where an absent field is `null`, and the field is read from its key.
pub record ReadsToken {T V : Type 0} (s : Serde T V) (access_token : T → Option Text) : Type 0 where
  pub as_text : V → Option Text
  pub null_text : (v : V) → s.is_null v ≡ true → as_text v ≡ none
  pub written :
      (params : T) (v : V)
      → s.to_value params ≡ Result.ok v
      → (d : Dict Text V) × (s.as_object v ≡ some d)
        × (is_map d ≡ true)
        × (and_then (get token_key d) as_text ≡ access_token params)
  pub read :
      (d : Dict Text V) (params : T)
      → s.from_value (s.object d) ≡ Result.ok params
      → access_token params ≡ and_then (get token_key d) as_text

pub Result-cases :
    {A E : Type 0} (o : Result A E) → ((a : A) × (o ≡ Result.ok a)) ⊎ ((e : E) × (o ≡ Result.err e))
Result-cases (Result.ok a) = inl (a, refl)
Result-cases (Result.err e) = inr (e, refl)

abbrev value_or : {A E : Type 0} → A → Result A E → A
value_or d (Result.ok a) = a
value_or d (Result.err e) = d

pub Result-ok :
    {A E : Type 0} (r : Result A E) (a b : A) → r ≡ Result.ok a → r ≡ Result.ok b → a ≡ b
Result-ok r a b h k = ap (value_or a) (sym h ∙ k)

module _ {T V : Type 0} (s : Serde T V) (access_token : T → Option Text)
    (r : ReadsToken s access_token) where
  filtered_text :
      (o : Option V)
      → and_then (filter_some (λ v. not (s.is_null v)) o) r.as_text ≡ and_then o r.as_text
  filtered_text none = refl
  filtered_text (some v) = elim (Bool-cases (s.is_null v)) [
    | inl e ↦ rw (filter_some, e) (sym (r.null_text v e))
    | inr e ↦ rw (filter_some, e) refl
  ]

  from_merged-ok :
      (o : Result T Text) (params : T) → from_merged s o ≡ Result.ok params → o ≡ Result.ok params
  from_merged-ok (Result.ok x) params h = ap (λ y. Result.ok y) (cc h)
  from_merged-ok (Result.err e) params h = absurd (cc h)

  -- The value that is read again is the object of the merge.
  merged_value-object :
      (obj d : Dict Text V) (v : V)
      → s.as_object v ≡ some d
      → merged_value s obj v ≡ s.object (retain (λ x. not (s.is_null x)) (merge_keys s obj d))
  unfolding merged_value
  merged_value-object obj d v e = rw (merged_value, e) refl

  merge_object-access_token :
      (params merged : T) (obj : Dict Text V)
      → merge_object s params obj ≡ Result.ok merged
      → access_token merged ≡ access_token params
  merge_object-access_token params merged obj h = elim (Result-cases (s.to_value params)) [
    | inr (e, failed) ↦ absurd (cc (rw (merge_object, failed) at h))
    | inl (v, e) ↦
        let w = r.written params v e in
        let kept = λ (x : V). not (s.is_null x) in
        let d = w.0 in
        let object = merged_value-object obj d v w.1 in
        let back : from_merged s (s.from_value (merged_value s obj v)) ≡ Result.ok merged =
          rw (merge_object, e) at h in
        let value =
          ap (λ x. s.from_value x) (sym object)
          ∙ from_merged-ok (s.from_value (merged_value s obj v)) merged back in
        let found =
          get-retain kept token_key (merge_keys s obj d) (merge_keys-is_map s obj d w.2)
          ∙ ap (λ o. filter_some kept o) (get-merge_keys s token_key obj d refl) in
        r.read (retain kept (merge_keys s obj d)) merged value
        ∙ ap (λ o. and_then o r.as_text) found
        ∙ filtered_text (get token_key d)
        ∙ w.3
  ]

  pub merge_body-access_token :
      (params merged : T) (body : Text)
      → merge_body s params body ≡ Result.ok merged
      → access_token merged ≡ access_token params
  unfolding merge_body
  merge_body-access_token params merged body h =
      let unchanged = λ (e : Result.ok params ≡ Result.ok merged).
        sym (ap access_token (Result-ok (Result.ok params) params merged refl e)) in
      elim (Bool-cases (is_empty body)) [
        | inl e ↦ unchanged (rw (merge_body, e) at h)
        | inr e ↦ elim (Option-cases (and_then (s.from_slice body) s.as_object)) [
          | inl none_read ↦ unchanged (rw (merge_body, e, none_read) at h)
          | inr (obj, read) ↦
              merge_object-access_token params merged obj (rw (merge_body, e, read) at h)
        ]
      ]
