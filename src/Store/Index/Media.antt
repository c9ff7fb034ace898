-- ===== src/Store/Index/Media.antt =====
-- store/index.rs, register_media: the first live entry wins, and only what can be served is entered.
use qqflow_server.Prelude.{
  ◌≡◌, refl, ap, sym, ◌∙◌, ◌⊎◌, true, false, ◌&&◌, Bool-cases, Option-cases, inl, inr, some, arith,
  if◌then◌else◌,
}
use mathlib.Core.Path.{subst}
use mathlib.Core.Option.{some-injective}
use qqflow_server.Prelude.Dict.{get, get-modify}
use qqflow_server.PathSafe.Contained.{Platform}
use qqflow_server.Text.{Text, text_eq, text_eq→eq, text_key}
use qqflow_server.Types.{MediaInfo, MsgType}
use qqflow_server.Store.{Store, MediaEntry, filled}
use qqflow_server.Store.Index.{
  has_path, from_cache, is_live, chosen_path, is_replaced, register_path, register_media,
}

module _ (platform : Platform) where
  entry_of : MediaInfo → Text → MediaEntry
  entry_of m path = record { local_path = path; file_name = m.file_name }

  get-register_path :
      (st : Store) (m : MediaInfo) (key path k : Text)
      → get k (register_path platform st m key path).media ≡ (
          if is_replaced platform st key path && text_eq key k
          then some (entry_of m path)
          else get k st.media)
  unfolding entry_of
  get-register_path st m key path k =
      let new : MediaEntry = entry_of m path in
      let found = get-modify k key new (λ _. new) st.media in
      elim (Bool-cases (is_replaced platform st key path)) [
        | inl e ↦ rw (register_path, e) found
        | inr e ↦ rw (register_path, e) refl
      ]

  live-kept :
      (st : Store) (m : MediaInfo) (key path k : Text) (entry : MediaEntry)
      → get k st.media ≡ some entry
      → is_live platform st entry.local_path ≡ true
      → get k (register_path platform st m key path).media ≡ some entry
  unfolding is_replaced
  live-kept st m key path k entry has live = elim (Bool-cases (text_eq key k)) [
    | inl same ↦
        let eq : key ≡ k = text_eq→eq key k same in
        let found : get key st.media ≡ some entry = ap (λ x. get x st.media) eq ∙ has in
        let kept : is_replaced platform st key path ≡ false =
          rw (is_replaced, found) (ground (arith, live)) in
        get-register_path st m key path k ∙ ground (arith, kept, has)
    | inr other ↦ get-register_path st m key path k ∙ ground (arith, other, has)
  ]

  -- The path resolves in the media root, or the scan of the cache found it for this key.
  abbrev pub IsFetchable : Store → MediaInfo → MsgType → Text → Text → Type 0
  IsFetchable st m t key path =
      (is_live platform st path ≡ true) ⊎ (from_cache platform st m key t ≡ some path)

  chosen_path-IsFetchable :
      (st : Store) (m : MediaInfo) (key : Text) (t : MsgType) (path : Text)
      → chosen_path platform st m key t ≡ some path
      → IsFetchable st m t key path
  unfolding chosen_path
  chosen_path-IsFetchable st m key t path h = elim (Option-cases (filled m.local_path)) [
    | inl e ↦ inr (rw (chosen_path, e) at h)
    | inr (lp, e) ↦ elim (Bool-cases (has_path platform st key lp)) [
      | inl f ↦ ground (arith, rw (chosen_path, e, f) at h)
      | inr f ↦ elim (Bool-cases (is_live platform st lp)) [
        | inl g ↦
            let same : lp ≡ path = some-injective lp path (rw (chosen_path, e, f, g) at h) in
            inl (ap (is_live platform st) (sym same) ∙ g)
        | inr g ↦ inr (rw (chosen_path, e, f, g) at h)
      ]
    ]
  ]

  -- An entry whose path resolves is never replaced.
  pub register_media-keeps_live :
      (st : Store) (m : MediaInfo) (t : MsgType) (k : Text) (entry : MediaEntry)
      → get k st.media ≡ some entry
      → is_live platform st entry.local_path ≡ true
      → get k (register_media platform st m t).media ≡ some entry
  unfolding register_media
  register_media-keeps_live st m t k entry has live = elim (Option-cases m.key) [
    | inl e ↦ rw (register_media, e) has
    | inr (key, e) ↦ elim (Option-cases (chosen_path platform st m key t)) [
      | inl f ↦ rw (register_media, e) (rw f has)
      | inr (path, f) ↦ rw (register_media, e) (rw f (live-kept st m key path k entry has live))
    ]
  ]

  register_path-origin :
      (st : Store) (m : MediaInfo) (key path k : Text) (entry : MediaEntry)
      → get k (register_path platform st m key path).media ≡ some entry
      → (get k st.media ≡ some entry) ⊎ ((key ≡ k) × (path ≡ entry.local_path))
  unfolding entry_of
  register_path-origin st m key path k entry h =
      let split = sym (get-register_path st m key path k) ∙ h in
      elim (Bool-cases (is_replaced platform st key path && text_eq key k)) [
        | inl c ↦ inr (
          text_eq→eq key k (ground (arith, c)),
          ap (λ x. x.local_path) (some-injective (entry_of m path) entry (rw c at split)),
        )
        | inr c ↦ inl (rw c at split)
      ]

  -- An entry behind a registration was there before, or is that of the message's key and its path
  -- can be fetched.
  pub register_media-IsFetchable :
      (st : Store) (m : MediaInfo) (t : MsgType) (k : Text) (entry : MediaEntry)
      → get k (register_media platform st m t).media ≡ some entry
      → (get k st.media ≡ some entry) ⊎ ((m.key ≡ some k) × IsFetchable st m t k entry.local_path)
  unfolding register_media
  register_media-IsFetchable st m t k entry h = elim (Option-cases m.key) [
    | inl e ↦ inl (rw (register_media, e) at h)
    | inr (key, e) ↦ elim (Option-cases (chosen_path platform st m key t)) [
      | inl f ↦ inl (rw f at (rw (register_media, e) at h))
      | inr (path, f) ↦
          elim (register_path-origin st m key path k entry
            (rw f at (rw (register_media, e) at h))) [
              | inl before ↦ inl before
              | inr (same, own) ↦
                  let fetchable = chosen_path-IsFetchable st m key t path f in
                  inr (
                    e ∙ ap some same,
                    subst (IsFetchable st m t k) own
                        (subst (λ x. IsFetchable st m t x path) same fetchable),
                  )
            ]
    ]
  ]
