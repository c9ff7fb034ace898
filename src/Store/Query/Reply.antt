-- ===== src/Store/Query/Reply.antt =====
-- store/query.rs, resolve_reply_to: the message that a reply names.
use qqflow_server.Prelude.{
  ◌≡◌, refl, ap, sym, ◌∙◌, Bool, true, false, not, ◌&&◌, Bool-cases, Option-cases, inl, inr, Option,
  none, some, List, [], ◌∷◌, ◌++◌, map, keep, any, arith, keep-accept, keep-reject, unwrap_or,
  and_then, map_some, is_some, if◌then◌else◌,
}
use mathlib.Core.Bool.{Bool-set}
use mathlib.Core.Logic.Or
use mathlib.Core.List.{Mem, append-nil, append_assoc, not-mem-nil, eq-or-mem_of_mem-cons}
use qqflow_server.Prelude.Int.{ℤ, ltb_ℤ, int_eq, int_key, int_eq→eq}
use qqflow_server.Prelude.Dict.{get, get-modify}
use qqflow_server.Text.{Text}
use qqflow_server.Text.Decimal.{to_string}
use qqflow_server.Types.{MessageRecord}
use qqflow_server.Store.{Store, Conversation}
use qqflow_server.Store.Query.{
  InnerIndex, index_step, index_from, build_inner_index, resolve_loop, resolve_reply_to, row_of,
  shape_record, with_fetchable_media_id, from_record,
}

-- The message carries the number `want`.
abbrev pub is_numbered : ℤ → MessageRecord → Bool
is_numbered want c = elim c.inner_seq [ none ↦ false | some k ↦ int_eq k want ]

abbrev row_pair : MessageRecord → ℤ × ℤ
row_pair c = (c.ts, c.seq)

abbrev rows_of : ℤ → InnerIndex → List (ℤ × ℤ)
rows_of want ix = unwrap_or [] (get want ix)

rows_of-same :
    (want k : ℤ) (add : List (ℤ × ℤ) → List (ℤ × ℤ)) (ix : InnerIndex)
    → unwrap_or [] (if int_eq k want then some (add (rows_of k ix)) else get want ix)
      ≡ (if int_eq k want then add (rows_of want ix) else rows_of want ix)
rows_of-same want k add ix = elim (Bool-cases (int_eq k want)) [
  | inl e ↦ rw e (ap (λ j. add (rows_of j ix)) (int_eq→eq k want e))
  | inr e ↦ rw e refl
]

rows_of-index_step :
    (want : ℤ) (ix : InnerIndex) (m : MessageRecord)
    → rows_of want (index_step ix m)
      ≡ (if is_numbered want m then rows_of want ix ++ row_pair m ∷ [] else rows_of want ix)
rows_of-index_step want ix m = elim (Option-cases m.inner_seq) [
  | inl e ↦ rw e refl
  | inr (k, e) ↦
      let add : List (ℤ × ℤ) → List (ℤ × ℤ) = λ rows. rows ++ row_pair m ∷ [] in
      rw e (ap (unwrap_or []) (get-modify want k [] add ix) ∙ rows_of-same want k add ix)
]

rows_of-index_from :
    (want : ℤ) (ix : InnerIndex) (ms : List MessageRecord)
    → rows_of want (index_from ix ms) ≡ rows_of want ix ++ map row_pair (keep (is_numbered want) ms)
unfolding index_from
rows_of-index_from want ix [] = sym (append-nil _)
rows_of-index_from want ix (m ∷ ms) =
    let step = rows_of-index_step want ix m in
    let rest = rows_of-index_from want (index_step ix m) ms in
    elim (Bool-cases (is_numbered want m)) [
      | inl e ↦ rw (keep-accept (is_numbered want) m ms e) (
          rest
          ∙ ap (λ rows. rows ++ map row_pair (keep (is_numbered want) ms)) (step ∙ rw e refl)
          ∙ append_assoc (rows_of want ix) (row_pair m ∷ []) _)
      | inr e ↦
          rw (keep-reject (is_numbered want) m ms e) (
            rest
            ∙ ap (λ rows. rows ++ map row_pair (keep (is_numbered want) ms)) (step ∙ rw e refl))
    ]

-- A message that a reply at the time `now` may mean.
abbrev pub is_target : ℤ → ℤ → MessageRecord → Bool
is_target want now c = is_numbered want c && not (ltb_ℤ now c.ts)

-- The only element's `seq`, if there is just one.
abbrev pub sole : List MessageRecord → Option ℤ
sole [] = none
sole (c ∷ []) = some c.seq
sole (c ∷ d ∷ cs) = none

abbrev unless_any : ℤ → List MessageRecord → Option ℤ
unless_any s [] = some s
unless_any s (c ∷ cs) = none

resolve_loop-some :
    (want now s : ℤ) (ms : List MessageRecord)
    → resolve_loop now (some s) (map row_pair (keep (is_numbered want) ms))
      ≡ unless_any s (keep (is_target want now) ms)
unfolding resolve_loop
resolve_loop-some want now s [] = refl
resolve_loop-some want now s (m ∷ ms) = ground (arith, resolve_loop-some want now s ms)

unless_any-sole :
    (c : MessageRecord) (cs : List MessageRecord) → unless_any c.seq cs ≡ sole (c ∷ cs)
unless_any-sole c [] = refl
unless_any-sole c (d ∷ cs) = refl

resolve_loop-none :
    (want now : ℤ) (ms : List MessageRecord)
    → resolve_loop now none (map row_pair (keep (is_numbered want) ms))
      ≡ sole (keep (is_target want now) ms)
unfolding resolve_loop
resolve_loop-none want now [] = refl
resolve_loop-none want now (m ∷ ms) = ground (
  arith,
  resolve_loop-none want now ms,
  resolve_loop-some want now m.seq ms,
  unless_any-sole m (keep (is_target want now) ms),
)

resolve_loop-missing :
    (now : ℤ) (rows : Option (List (ℤ × ℤ)))
    → and_then rows (resolve_loop now none) ≡ resolve_loop now none (unwrap_or [] rows)
unfolding resolve_loop
resolve_loop-missing now none = refl
resolve_loop-missing now (some rows) = refl

resolve_reply_to-sole :
    (want : ℤ) (m : MessageRecord) (ms : List MessageRecord)
    → m.reply_inner_seq ≡ some want
    → resolve_reply_to (index_from [] ms) m ≡ sole (keep (is_target want m.ts) ms)
unfolding resolve_reply_to
resolve_reply_to-sole want m ms reply =
    rw (resolve_reply_to, reply)
      (resolve_loop-missing m.ts (get want (index_from [] ms))
        ∙ ap (resolve_loop m.ts none) (rows_of-index_from want [] ms)
        ∙ resolve_loop-none want m.ts ms)

-- Some message of the conversation is a reply, if `m` is.
replies :
    (m : MessageRecord) (want : ℤ) (ms : List MessageRecord)
    → m.reply_inner_seq ≡ some want
    → Mem m ms
    → any (λ c. is_some c.reply_inner_seq) ms ≡ true
replies m want [] reply h = absurd (not-mem-nil h)
replies m want (c ∷ cs) reply h =
    Or.elim (Bool-set _ true) (eq-or-mem_of_mem-cons h) (λ e. rw (sym e, reply) refl)
      (λ more. ground (arith, replies m want cs reply more))

-- What a reply means: the number of the only message that carries the wanted inner number and is
-- not newer than the reply, if there is just one.
abbrev pub reply_target : List MessageRecord → MessageRecord → Option ℤ
reply_target ms m = and_then m.reply_inner_seq (λ want. sole (keep (is_target want m.ts) ms))

resolve_reply_to-reply_target :
    (m : MessageRecord) (ms : List MessageRecord)
    → resolve_reply_to (index_from [] ms) m ≡ reply_target ms m
unfolding resolve_reply_to
resolve_reply_to-reply_target m ms =
    let answer : Option ℤ → Option ℤ =
      λ o. and_then o (λ want. sole (keep (is_target want m.ts) ms)) in
    elim (Option-cases m.reply_inner_seq) [
      | inl e ↦ rw (resolve_reply_to, e) refl
      | inr (want, e) ↦ resolve_reply_to-sole want m ms e ∙ ap answer (sym e)
    ]

shape_record-no_reply :
    (st : Store) (m : MessageRecord) → (shape_record st m).reply_to_message_id ≡ none
unfolding shape_record with_fetchable_media_id from_record
shape_record-no_reply st m = ground arith

module _ (to_lowercase : Text → Text) where
  -- The row of a message of the conversation names a message as the one replied to exactly when
  -- just one message of the conversation carries the wanted number and is not newer than the reply.
  pub row_of-reply_target :
      (st : Store) (conv : Conversation) (m : MessageRecord)
      → Mem m conv.msgs
      → (row_of to_lowercase st (build_inner_index conv) m).reply_to_message_id
        ≡ map_some to_string (reply_target conv.msgs m)
  unfolding build_inner_index
  row_of-reply_target st conv m h =
      let has_reply : MessageRecord → Bool = λ c. is_some c.reply_inner_seq in
      elim (Bool-cases (any has_reply conv.msgs)) [
        | inl e ↦
            rw (build_inner_index, e)
              (ap (map_some to_string) (resolve_reply_to-reply_target m conv.msgs))
        | inr e ↦ elim (Option-cases m.reply_inner_seq) [
          | inl f ↦
              rw (build_inner_index, e)
                (shape_record-no_reply st m
                  ∙ ap (map_some to_string) (
                      ap (λ o. and_then o (λ want. sole (keep (is_target want m.ts) conv.msgs)))
                        (sym f)))
          | inr (want, f) ↦ ground (arith, e, replies m want conv.msgs f h)
        ]
      ]
