-- ===== src/Store/Query/Handles.antt =====
-- store/query.rs: a `mediaId` is put out exactly when the store can serve it.
use qqflow_server.Prelude.{◌≡◌, true, Option-cases, inl, inr, some, arith, and_then}
use qqflow_server.Prelude.Dict.{contains_key}
use qqflow_server.Text.{Text, text_key}
use qqflow_server.Types.{MessageRecord}
use qqflow_server.Store.{Store}
use qqflow_server.Store.Query.{
  from_record, with_fetchable_media_id, shape_record, fetchable_media_id, media_key,
}

-- A row of the API names the media that a live event about the message names.
pub shape_record-fetchable_media_id :
    (st : Store) (r : MessageRecord)
    → (shape_record st r).media_id ≡ and_then r.parsed.media (fetchable_media_id st)
unfolding shape_record with_fetchable_media_id fetchable_media_id from_record
shape_record-fetchable_media_id st r = elim (Option-cases (media_key r)) [
  | inl e ↦ ground (arith, e)
  | inr (key, e) ↦ ground (arith, e)
]

-- Every id that a row names is a key of the media map.
pub shape_record-contains_key :
    (st : Store) (r : MessageRecord) (id : Text)
    → (shape_record st r).media_id ≡ some id
    → contains_key id st.media ≡ true
unfolding shape_record with_fetchable_media_id from_record
shape_record-contains_key st r id h = elim (Option-cases (media_key r)) [
  | inl e ↦ ground (arith, e, h)
  | inr (key, e) ↦ ground (arith, e, h)
]
