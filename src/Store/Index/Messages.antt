-- ===== src/Store/Index/Messages.antt =====
-- store/index.rs, apply_records: the messages of a conversation are those of its records, in order.
use qqflow_server.Prelude.{
  ◌≡◌, refl, ap, sym, ◌∙◌, Bool, true, false, ◌&&◌, Bool-cases, Option-cases, inl, inr, Option,
  none, some, List, [], ◌∷◌, ◌++◌, keep, arith, keep-accept, keep-reject, if◌then◌else◌, unwrap_or,
  map_some,
}
use mathlib.Core.List.{append-nil, append_assoc}
use qqflow_server.Store.Keys.{same_type, conv_key-test}
use qqflow_server.Prelude.Dict.{Dict, get, get-modify}
use qqflow_server.PathSafe.Contained.{Platform}
use qqflow_server.Text.{Text, text_eq, text_eq→eq, text_key, is_empty}
use qqflow_server.Types.{MessageRecord, ChatType, MediaInfo, MsgType}
use qqflow_server.Store.{Store, Conversation, conv_key, conversation}
use qqflow_server.Store.Index.{
  register_media, register_record, record_message, push_message, new_conversation, apply_record,
  apply_records,
}

module _ (platform : Platform) where
  register_media-convs :
      (st : Store) (m : MediaInfo) (t : MsgType) → (register_media platform st m t).convs ≡ st.convs
  unfolding register_media
  register_media-convs st m t = ground arith

  register_record-convs :
      (st : Store) (rec : MessageRecord) → (register_record platform st rec).convs ≡ st.convs
  register_record-convs st rec = elim (Option-cases rec.parsed.media) [
    | inl e ↦ rw (register_record, e) refl
    | inr (m, e) ↦ rw (register_record, e) (register_media-convs st m rec.parsed.msg_type)
  ]

  -- Of all the steps of `apply_record` one changes the conversations.
  pub apply_record-convs :
      (st : Store) (rec : MessageRecord)
      → (apply_record platform st rec).convs
        ≡ (if is_empty rec.talker then st.convs else (record_message rec st).convs)
  unfolding apply_record
  apply_record-convs st rec = ground (arith, register_record-convs st rec)

-- The record belongs to this conversation.
abbrev pub is_of : ChatType → Text → MessageRecord → Bool
is_of t talker rec = same_type rec.chat_type t && text_eq rec.talker talker

abbrev pub messages_of : ChatType → Text → Store → List MessageRecord
messages_of t talker st = unwrap_or [] (map_some (λ c. c.msgs) (conversation t talker st))

text_eq-empty : (s t : Text) → is_empty s ≡ true → is_empty t ≡ false → text_eq s t ≡ false
text_eq-empty [] [] h g = ground (arith, g)
text_eq-empty [] (y ∷ t) h g = refl
text_eq-empty (x ∷ s) t h g = ground (arith, h)

is_of-empty :
    (t : ChatType) (talker : Text) (rec : MessageRecord)
    → is_empty rec.talker ≡ true
    → is_empty talker ≡ false
    → is_of t talker rec ≡ false
is_of-empty t talker rec h g = ground (arith, text_eq-empty rec.talker talker h g)

module _ (t : ChatType) (talker : Text) where
  stored : Dict Text Conversation → List MessageRecord
  stored convs = unwrap_or [] (map_some (λ c. c.msgs) (get (conv_key t talker) convs))

  msgs-pushed :
      (rec : MessageRecord) (c : Option Conversation)
      → (push_message rec (unwrap_or (new_conversation rec) c)).msgs
        ≡ unwrap_or [] (map_some (λ c. c.msgs) c) ++ rec ∷ []
  msgs-pushed rec none = refl
  msgs-pushed rec (some c) = refl

  stored-record_message :
      (rec : MessageRecord) (st : Store)
      → stored (record_message rec st).convs
        ≡ (if is_of t talker rec then stored st.convs ++ rec ∷ [] else stored st.convs)
  unfolding stored
  stored-record_message rec st =
      let key = conv_key rec.chat_type rec.talker in
      let found =
        get-modify (conv_key t talker) key (new_conversation rec) (push_message rec) st.convs in
      let test = conv_key-test rec.chat_type t rec.talker talker in
      elim (Bool-cases (is_of t talker rec)) [
        | inl e ↦
            let same : key ≡ conv_key t talker = text_eq→eq key (conv_key t talker) (test ∙ e) in
            rw (found, test, e)
              (msgs-pushed rec (get key st.convs)
                ∙ ap (λ k. unwrap_or [] (map_some (λ c. c.msgs) (get k st.convs)) ++ rec ∷ []) same)
        | inr e ↦ rw (found, test, e) refl
      ]

module _ (platform : Platform) (t : ChatType) (talker : Text) where
  messages_of-apply_record :
      (st : Store) (rec : MessageRecord)
      → is_empty talker ≡ false
      → messages_of t talker (apply_record platform st rec) ≡ (
          if is_of t talker rec
          then messages_of t talker st ++ rec ∷ []
          else messages_of t talker st)
  unfolding conversation stored
  messages_of-apply_record st rec addressed =
      let convs = ap (stored t talker) (apply_record-convs platform st rec) in
      elim (Bool-cases (is_empty rec.talker)) [
        | inl e ↦ convs ∙ rw (e, is_of-empty t talker rec e addressed) refl
        | inr e ↦ convs ∙ rw e (stored-record_message t talker rec st)
      ]

  -- Applying records appends to a conversation's messages the records that belong to it, in
  -- their order, and no others.
  pub messages_of-apply_records :
      (st : Store) (recs : List MessageRecord)
      → is_empty talker ≡ false
      → messages_of t talker (apply_records platform st recs)
        ≡ messages_of t talker st ++ keep (is_of t talker) recs
  unfolding apply_records
  messages_of-apply_records st [] addressed = sym (append-nil _)
  messages_of-apply_records st (rec ∷ recs) addressed =
      let one = messages_of-apply_record st rec addressed in
      let rest = messages_of-apply_records (apply_record platform st rec) recs addressed in
      elim (Bool-cases (is_of t talker rec)) [
        | inl e ↦ rw (keep-accept (is_of t talker) rec recs e) (
            rest
            ∙ ap (λ ms. ms ++ keep (is_of t talker) recs) (one ∙ rw e refl)
            ∙ append_assoc (messages_of t talker st) (rec ∷ []) _)
        | inr e ↦
            rw (keep-reject (is_of t talker) rec recs e)
              (rest ∙ ap (λ ms. ms ++ keep (is_of t talker) recs) (one ∙ rw e refl))
      ]
