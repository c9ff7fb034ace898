-- ===== src/Store/Index/Keyed.antt =====
-- store/index.rs: the invariant of the index, from the empty store on.
use qqflow_server.Prelude.{
  Option-cases, ◌≡◌, refl, sym, ◌∙◌, true, false, ◌&&◌, Bool-cases, inl, inr, some, List, [], ◌∷◌,
  ◌++◌, All, arith,
}
use mathlib.Core.Path.{subst}
use qqflow_server.Prelude.Dict.{Entries, Entries-modify, Entries-get}
use qqflow_server.PathSafe.Contained.{Platform}
use qqflow_server.Text.{Text, text_eq, text_eq_refl, text_eq→eq, text_key, is_empty}
use qqflow_server.Types.{MessageRecord, ChatType}
use qqflow_server.Store.{
  Store, Conversation, conv_key, conversation, find_conversation, classify_talker, other_type,
}
use qqflow_server.Store.Keys.{same_type, conv_key-test}
use qqflow_server.Store.Index.{push_message, new_conversation, apply_record, apply_records}
use qqflow_server.Store.Index.Messages.{is_of, apply_record-convs}

-- A conversation stands under its own key, is addressed, and holds its own messages only.
abbrev pub IsOwn : Text → Conversation → Type 0
IsOwn key c =
    (text_eq key (conv_key c.chat_type c.talker) ≡ true)
    × (is_empty c.talker ≡ false)
    × All (λ m. is_of c.chat_type c.talker m ≡ true) c.msgs

abbrev pub IsKeyed : Store → Type 0
IsKeyed st = Entries IsOwn st.convs

All-push :
    (P : MessageRecord → Type 0) (ms : List MessageRecord) (m : MessageRecord)
    → All P ms
    → P m
    → All P (ms ++ m ∷ [])
All-push P [] m h p = (p, tt)
All-push P (x ∷ ms) m h p = (h.0, All-push P ms m h.1 p)

same_type_refl : (t : ChatType) → same_type t t ≡ true
same_type_refl ChatType.group = refl
same_type_refl ChatType.c2c = refl

is_of_own : (rec : MessageRecord) → is_of rec.chat_type rec.talker rec ≡ true
is_of_own rec = ground (arith, same_type_refl rec.chat_type, text_eq_refl rec.talker)

-- Types that agree and texts that agree are the same.
same_type→eq : (a b : ChatType) → same_type a b ≡ true → a ≡ b
same_type→eq ChatType.group ChatType.group h = refl
same_type→eq ChatType.c2c ChatType.c2c h = refl
same_type→eq ChatType.group ChatType.c2c h = ground (arith, h)
same_type→eq ChatType.c2c ChatType.group h = ground (arith, h)

push_message-IsOwn :
    (rec : MessageRecord) (c : Conversation)
    → IsOwn (conv_key rec.chat_type rec.talker) c
    → IsOwn (conv_key rec.chat_type rec.talker) (push_message rec c)
push_message-IsOwn rec c h =
    let own : is_of c.chat_type c.talker rec ≡ true =
      sym (conv_key-test rec.chat_type c.chat_type rec.talker c.talker) ∙ h.0 in
    (h.0, h.1, All-push _ c.msgs rec h.2 own)

new_conversation-IsOwn :
    (rec : MessageRecord)
    → is_empty rec.talker ≡ false
    → IsOwn (conv_key rec.chat_type rec.talker) (push_message rec (new_conversation rec))
new_conversation-IsOwn rec addressed =
    (text_eq_refl (conv_key rec.chat_type rec.talker), addressed, (is_of_own rec, tt))

module _ (platform : Platform) where
  pub apply_record-IsKeyed :
      (st : Store) (rec : MessageRecord) → IsKeyed st → IsKeyed (apply_record platform st rec)
  apply_record-IsKeyed st rec h = elim (Bool-cases (is_empty rec.talker)) [
    | inl e ↦ rw (apply_record-convs platform st rec, e) h
    | inr e ↦
        rw (apply_record-convs platform st rec, e)
          (Entries-modify IsOwn (conv_key rec.chat_type rec.talker) (new_conversation rec)
            (push_message rec) st.convs (new_conversation-IsOwn rec e) (push_message-IsOwn rec) h)
  ]

  -- Applying records keeps the invariant.
  pub apply_records-IsKeyed :
      (st : Store) (recs : List MessageRecord)
      → IsKeyed st
      → IsKeyed (apply_records platform st recs)
  unfolding apply_records
  apply_records-IsKeyed st [] h = h
  apply_records-IsKeyed st (rec ∷ recs) h =
      apply_records-IsKeyed (apply_record platform st rec) recs (apply_record-IsKeyed st rec h)

-- A conversation of the talker that holds its own messages only.
abbrev pub IsConversationOf : Text → Conversation → Type 0
IsConversationOf talker c =
    (c.talker ≡ talker) × All (λ m. is_of c.chat_type talker m ≡ true) c.msgs

conversation-IsConversationOf :
    (t : ChatType) (talker : Text) (st : Store) (c : Conversation)
    → IsKeyed st
    → conversation t talker st ≡ some c
    → IsConversationOf talker c
unfolding conversation
conversation-IsConversationOf t talker st c h g =
    let own = Entries-get IsOwn (conv_key t talker) st.convs c h g in
    let same : same_type t c.chat_type && text_eq talker c.talker ≡ true =
      sym (conv_key-test t c.chat_type talker c.talker) ∙ own.0 in
    let eq : talker ≡ c.talker = text_eq→eq talker c.talker (ground (arith, same)) in
    (sym eq, subst (λ s. All (λ m. is_of c.chat_type s m ≡ true) c.msgs) (sym eq) own.2)

-- `find_conversation` on a keyed store gives a conversation of that talker with its own messages
-- only.
pub find_conversation-IsConversationOf :
    (talker : Text) (st : Store) (c : Conversation)
    → IsKeyed st
    → find_conversation talker st ≡ some c
    → IsConversationOf talker c
unfolding find_conversation
find_conversation-IsConversationOf talker st c h g =
    let primary = classify_talker talker in
    elim (Option-cases (conversation primary talker st)) [
      | inl e ↦
          conversation-IsConversationOf (other_type primary) talker st c h
            (rw (find_conversation, e) at g)
      | inr (d, e) ↦
          conversation-IsConversationOf primary talker st c h (e ∙ rw (find_conversation, e) at g)
    ]
