-- ===== src/Sync/Poll/Pass.antt =====
-- sync/mod.rs: what one pass does to the conversations, and how its events fit its rows.
use qqflow_server.Prelude.{
  ℕ, ◌≡◌, refl, ap, sym, ◌∙◌, false, not, ◌||◌, Bool-cases, inl, inr, List, [], ◌∷◌, ◌++◌, map,
  keep, length, arith, keep-append,
}
use mathlib.Core.List.{append_assoc}
use qqflow_server.Prelude.Int.{ℤ, pos}
use qqflow_server.PathSafe.Contained.{Platform}
use qqflow_server.Text.{Text, text_key, is_empty}
use qqflow_server.Types.{ChatType, MessageRecord, from_code, type_code}
use qqflow_server.Types.Codes.{from_code-type_code}
use qqflow_server.Store.{Store, mark_index_built, conversation}
use qqflow_server.Store.Query.{shape_record, with_fetchable_media_id, from_record}
use qqflow_server.Store.Query.Handles.{shape_record-fetchable_media_id}
use qqflow_server.Store.Index.{apply_records}
use qqflow_server.Store.Index.Messages.{is_of, messages_of, messages_of-apply_records}
use qqflow_server.Sync.Events.{message_new}
use qqflow_server.Sync.Poll.{
  AccountSync, ReadResult, new_rows, with_media_root, applied, apply_phase, event_of, count_rows,
  is_recall,
}

module _ (platform : Platform) (t : ChatType) (talker : Text) where
  messages_of-applied :
      (db_dir : Text) (now : ℤ) (read : ReadResult) (st : Store)
      → is_empty talker ≡ false
      → messages_of t talker (applied platform db_dir now read st)
        ≡ messages_of t talker st ++ keep (is_of t talker) (new_rows read)
  unfolding mark_index_built conversation
  messages_of-applied db_dir now ((wm_g, new_g), (wm_c, new_c)) st addressed =
      let st' = apply_records platform (with_media_root platform db_dir st) new_g in
      let first =
        messages_of-apply_records platform t talker (with_media_root platform db_dir st) new_g
          addressed in
      let both : messages_of t talker (apply_records platform st' new_c)
          ≡ messages_of t talker st ++ keep (is_of t talker) (new_g ++ new_c) =
        messages_of-apply_records platform t talker st' new_c addressed
        ∙ ap (λ ms. ms ++ keep (is_of t talker) new_c) first
        ∙ append_assoc (messages_of t talker st) _ _
        ∙ ap (λ ms. messages_of t talker st ++ ms)
            (sym (keep-append (is_of t talker) new_g new_c)) in
      elim (Bool-cases (not (is_empty new_g) || not (is_empty new_c))) [
        | inl e ↦ rw e both
        | inr e ↦ rw e both
      ]

-- The event of a message names the media that the row of the message names, unless it is a recall.
pub event_of-media_id :
    (st : Store) (r : MessageRecord)
    → is_recall r.parsed.msg_type ≡ false
    → (event_of st r).media_id ≡ (shape_record st r).media_id
unfolding event_of message_new
event_of-media_id st r h = rw (event_of, h) (sym (shape_record-fetchable_media_id st r))

local_type-shape_record :
    (st : Store) (r : MessageRecord) → (shape_record st r).local_type ≡ type_code r.parsed.msg_type
unfolding shape_record with_fetchable_media_id from_record
local_type-shape_record st r = ground arith

-- The recalls among the rows of a pass, and the rest.
abbrev pub recalls : List MessageRecord → ℕ
recalls rs = length (keep (λ r. is_recall r.parsed.msg_type) rs)

abbrev pub others : List MessageRecord → ℕ
others rs = length (keep (λ r. not (is_recall r.parsed.msg_type)) rs)

count_rows-recalls :
    (st : Store) (rs : List MessageRecord)
    → count_rows (map (shape_record st) rs) ≡ (others rs, recalls rs)
unfolding count_rows
count_rows-recalls st [] = refl
count_rows-recalls st (r ∷ rs) =
    let code : from_code (pos (shape_record st r).local_type) ≡ r.parsed.msg_type =
      ap (λ c. from_code (pos c)) (local_type-shape_record st r)
      ∙ from_code-type_code r.parsed.msg_type in
    rw (code, count_rows-recalls st rs) (ground arith)

applied-watermarks :
    (platform : Platform) (db_dir : Text) (now : ℤ) (read : ReadResult) (st : Store)
    → let after = applied platform db_dir now read st in
      (after.watermark_group ≡ read.0.0) × (after.watermark_c2c ≡ read.1.0)
unfolding mark_index_built
applied-watermarks platform db_dir now ((wm_g, new_g), (wm_c, new_c)) st =
    elim (Bool-cases (not (is_empty new_g) || not (is_empty new_c))) [
      | inl e ↦ rw e (refl, refl)
      | inr e ↦ rw e (refl, refl)
    ]

pub apply_phase-live :
    (platform : Platform) (now : ℤ) (read : ReadResult) (acc : AccountSync)
    → acc.stopped ≡ false
    → apply_phase platform now read acc ≡ (
        let st = applied platform acc.db_dir now read acc.store in
        (
          (map (event_of st) (new_rows read), map (shape_record st) (new_rows read)),
          record acc { store = st },
        ))
unfolding apply_phase
apply_phase-live platform now read acc live = rw (apply_phase, live) refl

-- A pass of an account that is not stopped appends to every addressed conversation its new records
-- in their order and no others, moves both watermarks to those of the read, and counts each record
-- once: as a recall or as a message.
pub apply_phase-appends :
    (platform : Platform) (t : ChatType) (talker : Text) (now : ℤ) (read : ReadResult)
    (acc : AccountSync)
    → acc.stopped ≡ false
    → is_empty talker ≡ false
    → let done = apply_phase platform now read acc in
      (messages_of t talker done.1.store
        ≡ messages_of t talker acc.store ++ keep (is_of t talker) (new_rows read))
      × ((done.1.store.watermark_group ≡ read.0.0) × (done.1.store.watermark_c2c ≡ read.1.0))
      × (count_rows done.0.1 ≡ (others (new_rows read), recalls (new_rows read)))
unfolding apply_phase mark_index_built
apply_phase-appends platform t talker now read acc live addressed =
    let st = applied platform acc.db_dir now read acc.store in
    rw (apply_phase-live platform now read acc live) (
      messages_of-applied platform t talker acc.db_dir now read acc.store addressed,
      applied-watermarks platform acc.db_dir now read acc.store,
      count_rows-recalls st (new_rows read),
    )
