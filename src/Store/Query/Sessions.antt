-- ===== src/Store/Query/Sessions.antt =====
-- store/query.rs, query_sessions: when the list does not depend on the order of the map, and how long
-- its pages are.
use qqflow_server.Prelude.{
  ℕ, ◌-◌, min, ◌≡◌, refl, ap, sym, ◌∙◌, Bool, ◌||◌, Option, none, some, List, map, keep, length,
  take, drop, arith, length-drop, length-take, length-map, map_some,
}
use mathlib.Core.Path.{fun_ext}
use mathlib.Core.List.{Perm, Mem}
use qqflow_server.Prelude.Int.{ltb_ℤ_apart}
use qqflow_server.Prelude.Dict.{get, values, Dict}
use qqflow_server.Prelude.Sort.{sort_by, IsOrder, IsApart, sort_by-perm_eq, length-keep-sort_by}
use qqflow_server.Text.{Text, text_key, contains_text}
use qqflow_server.Text.Order.{text_lt_asym, text_lt_cotrans, text_lt_apart}
use qqflow_server.Types.{ChatType}
use qqflow_server.Store.{Store, Conversation, display_name, conversation, conv_key}
use qqflow_server.Store.Query.{
  SessionInfo, conv_last_ts, session_leb, matches_keyword, count_sessions, session_row,
  query_sessions,
}

session_leb-IsOrder : IsOrder session_leb
session_leb-IsOrder = record {
  total = λ a b h. ground (arith, h, text_lt_asym b.talker a.talker);
  trans = λ a b c h g. ground (arith, h, g, text_lt_cotrans a.talker b.talker c.talker);
}

-- Conversations that are before each other have the same time and the same talker.
session_leb-IsApart :
    (cs : List Conversation)
    → ((x y : Conversation)
        → Mem x cs
        → Mem y cs
        → conv_last_ts x ≡ conv_last_ts y
        → x.talker ≡ y.talker
        → x ≡ y)
    → IsApart session_leb cs
session_leb-IsApart cs apart x y hx hy le ge =
    let tx = conv_last_ts x in
    let ty = conv_last_ts y in
    apart x y hx hy (ltb_ℤ_apart tx ty (ground (arith, le, ge)) (ground (arith, le, ge)))
      (text_lt_apart x.talker y.talker (ground (arith, le, ge)) (ground (arith, le, ge)))

-- A store whose map gives its entries in another order.
abbrev pub reordered : Store → Dict Text Conversation → Store
reordered st convs = record st { convs = convs }

display_name-same :
    (st : Store) (convs : Dict Text Conversation)
    → ((k : Text) → get k st.convs ≡ get k convs)
    → (t : ChatType) (talker : Text)
    → display_name t talker (reordered st convs) ≡ display_name t talker st
unfolding display_name conversation
display_name-same st convs same ChatType.group talker =
    rw (display_name, conversation, same (conv_key ChatType.group talker)) refl
display_name-same st convs same ChatType.c2c talker =
    rw (display_name, conversation, same (conv_key ChatType.c2c talker)) refl

module _ (to_lowercase : Text → Text) where
  -- A page of the session list has as many rows as `count_sessions` leaves for it.
  pub length-query_sessions :
      (st : Store) (keyword : Option Text) (limit offset : ℕ)
      → length (query_sessions to_lowercase st keyword limit offset)
        ≡ min limit (count_sessions to_lowercase st keyword - offset)
  unfolding query_sessions count_sessions
  length-query_sessions st keyword limit offset =
      let kw = map_some to_lowercase keyword in
      let rows =
        keep (matches_keyword to_lowercase st kw) (sort_by session_leb (values st.convs)) in
      length-map (session_row to_lowercase st) (take limit (drop offset rows))
      ∙ length-take limit (drop offset rows)
      ∙ ap (min limit) (
          length-drop offset rows
          ∙ ap (λ n. n - offset)
              (length-keep-sort_by session_leb (matches_keyword to_lowercase st kw)
                (values st.convs)))

  matches_keyword-same :
      (st : Store) (convs : Dict Text Conversation)
      → ((k : Text) → get k st.convs ≡ get k convs)
      → (kw : Option Text) (c : Conversation)
      → matches_keyword to_lowercase (reordered st convs) kw c
        ≡ matches_keyword to_lowercase st kw c
  unfolding matches_keyword
  matches_keyword-same st convs same none c = refl
  matches_keyword-same st convs same (some k) c =
      ap (λ name. contains_text k (to_lowercase name) || contains_text k (to_lowercase c.talker))
        (display_name-same st convs same c.chat_type c.talker)

  -- Two orders of the same entries give the same pages, if no two different conversations share both
  -- their last time and their talker: conversations that share their last time are told apart by the
  -- talker.
  pub query_sessions-same_map :
      (st : Store) (convs : Dict Text Conversation) (keyword : Option Text) (limit offset : ℕ)
      → ((x y : Conversation)
          → Mem x (values st.convs)
          → Mem y (values st.convs)
          → conv_last_ts x ≡ conv_last_ts y
          → x.talker ≡ y.talker
          → x ≡ y)
      → Perm (values st.convs) (values convs)
      → ((k : Text) → get k st.convs ≡ get k convs)
      → query_sessions to_lowercase (reordered st convs) keyword limit offset
        ≡ query_sessions to_lowercase st keyword limit offset
  unfolding query_sessions
  query_sessions-same_map st convs keyword limit offset apart perm same =
      let kw = map_some to_lowercase keyword in
      let rows : List Conversation
          → (Conversation → Bool)
          → (Conversation → SessionInfo)
          → List SessionInfo =
        λ cs p row. map row (take limit (drop offset (keep p cs))) in
      let sorted = sort_by session_leb (values convs) in
      let named : session_row to_lowercase (reordered st convs) ≡ session_row to_lowercase st =
        fun_ext (λ c.
          ap (λ name. record (session_row to_lowercase st c) { display_name = name })
            (display_name-same st convs same c.chat_type c.talker)) in
      ap (rows sorted (matches_keyword to_lowercase (reordered st convs) kw)) named
      ∙ ap (λ p. rows sorted p (session_row to_lowercase st))
          (fun_ext (matches_keyword-same st convs same kw))
      ∙ ap (λ cs. rows cs (matches_keyword to_lowercase st kw) (session_row to_lowercase st))
          (sym (
            sort_by-perm_eq session_leb session_leb-IsOrder (values st.convs) (values convs)
              (session_leb-IsApart (values st.convs) apart) perm))
