-- ===== src/Store/Query/Pages.antt =====
-- store/query.rs, query_messages: the pages of one conversation.
use qqflow_server.Prelude.{
  ℕ, suc, ◌+◌, ◌-◌, ◌<◌, ◌≤◌, ◌≡◌, refl, ap, ◌∙◌, Bool, true, false, Bool-cases, inl, inr, some,
  List, [], ◌∷◌, map, keep, ltb, leb, length, take, drop, arith, keep-accept, keep-reject, take-nil,
  drop-nil,
}
use qqflow_server.Prelude.Sort.{sort_by}
use qqflow_server.Text.{Text}
use qqflow_server.Types.{MessageRecord}
use qqflow_server.Store.{Store, Conversation, find_conversation}
use qqflow_server.Store.Query.{
  MessageOut, MessageQuery, newest_leb, build_inner_index, is_wanted, row_of, query_loop,
  query_messages,
}

module _ (to_lowercase : Text → Text) where
  -- The rows of a page that still skips `k` rows and takes `l`, and whether more follow.
  abbrev pub page_of :
      ℕ → ℕ → (MessageRecord → MessageOut) → List MessageRecord → List MessageOut × Bool
  page_of k l row ms = (map row (take l (drop k ms)), ltb (k + l) (length ms))

  page_of-nil : (k l : ℕ) (row : MessageRecord → MessageOut) → ([], false) ≡ page_of k l row []
  page_of-nil k l row = rw (drop-nil k, take-nil l) (ground arith)

  page_of-skip :
      (offset s l : ℕ) (row : MessageRecord → MessageOut) (m : MessageRecord)
      (ms : List MessageRecord)
      → s < offset
      → page_of (offset - (s + 1)) l row ms ≡ page_of (offset - s) l row (m ∷ ms)
  page_of-skip offset s l row m ms h =
      let e : offset - s ≡ suc (offset - (s + 1)) = omega (arith, h) in rw e (ground arith)

  page_of-full :
      (offset s limit n : ℕ) (row : MessageRecord → MessageOut) (m : MessageRecord)
      (ms : List MessageRecord)
      → offset ≤ s
      → limit ≤ n
      → ([], true) ≡ page_of (offset - s) (limit - n) row (m ∷ ms)
  page_of-full offset s limit n row m ms h g =
      let e : offset - s ≡ 0 = omega (arith, h) in
      let f : limit - n ≡ 0 = omega (arith, g) in rw (e, f) (ground arith)

  page_of-take :
      (offset s limit n : ℕ) (row : MessageRecord → MessageOut) (m : MessageRecord)
      (ms : List MessageRecord)
      → offset ≤ s
      → n < limit
      → (let rest = page_of (offset - s) (limit - (n + 1)) row ms in (row m ∷ rest.0, rest.1))
        ≡ page_of (offset - s) (limit - n) row (m ∷ ms)
  page_of-take offset s limit n row m ms h g =
      let e : offset - s ≡ 0 = omega (arith, h) in
      let f : limit - n ≡ suc (limit - (n + 1)) = omega (arith, g) in rw (e, f) (ground arith)

  query_loop-page :
      (q : MessageQuery) (row : MessageRecord → MessageOut) (s n : ℕ) (ms : List MessageRecord)
      → query_loop to_lowercase q row s n ms
        ≡ page_of (q.offset - s) (q.limit - n) row (keep (is_wanted to_lowercase q) ms)
  unfolding query_loop
  query_loop-page q row s n [] = page_of-nil (q.offset - s) (q.limit - n) row
  query_loop-page q row s n (m ∷ ms) = elim (Bool-cases (is_wanted to_lowercase q m)) [
    | inr e ↦
        rw (query_loop, e, keep-reject (is_wanted to_lowercase q) m ms e)
          (query_loop-page q row s n ms)
    | inl e ↦
        let wanted = keep (is_wanted to_lowercase q) ms in
        rw (query_loop, e, keep-accept (is_wanted to_lowercase q) m ms e)
          elim (Bool-cases (ltb s q.offset)) [
            | inl f ↦ rw f (
                query_loop-page q row (s + 1) n ms
                ∙ page_of-skip q.offset s (q.limit - n) row m wanted (ground (arith, f)))
            | inr f ↦ elim (Bool-cases (leb q.limit n)) [
              | inl g ↦
                  rw (f, g)
                    (page_of-full q.offset s q.limit n row m wanted (ground (arith, f))
                      (ground (arith, g)))
              | inr g ↦
                  rw (f, g)
                    (ap (λ rest. (row m ∷ rest.0, rest.1)) (query_loop-page q row s (n + 1) ms)
                      ∙ page_of-take q.offset s q.limit n row m wanted (ground (arith, f))
                          (ground (arith, g)))
            ]
          ]
  ]

  -- The rows of a conversation that answer the query, newest first.
  abbrev pub answer_rows : Conversation → MessageQuery → List MessageRecord
  answer_rows conv q = keep (is_wanted to_lowercase q) (sort_by newest_leb conv.msgs)

  -- On a conversation that is found, `query_messages` answers with the rows `offset` to
  -- `offset + limit` of those that pass the filters, newest first, and says that more follow
  -- exactly when the filters leave more than `offset + limit`.
  pub query_messages-page :
      (st : Store) (q : MessageQuery) (conv : Conversation)
      → find_conversation q.talker st ≡ some conv
      → query_messages to_lowercase st q
        ≡ page_of q.offset q.limit
            (row_of to_lowercase st (build_inner_index conv))
            (answer_rows conv q)
  unfolding query_messages
  query_messages-page st q conv found =
      let row = row_of to_lowercase st (build_inner_index conv) in
      let e : q.offset - 0 ≡ q.offset = omega arith in
      let f : q.limit - 0 ≡ q.limit = omega arith in
      rw (query_messages, found)
        (query_loop-page q row 0 0 (sort_by newest_leb conv.msgs) ∙ rw (e, f) refl)
