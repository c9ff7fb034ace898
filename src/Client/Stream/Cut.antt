-- ===== src/Client/Stream/Cut.antt =====
-- clients/rust/src/client.rs: wherever a connection is cut, the cursor is that of the last event
-- that was handed over.
use mathlib.Core.Path.{subst}
use qqflow_server.Prelude.{
  ℕ, zero, suc, ◌<◌, ◌≡◌, refl, sym, ap, ◌∙◌, Bool, true, false, Option, none, some, List, [], ◌∷◌,
  ◌++◌, take, unwrap_or, all, ltb, or_else, arith,
}
use qqflow_server.Text.{Text, utf8}
use qqflow_server.Text.Chars.{
  from_chars, is_ascii, is_whitespace, drop_while, drop_end, trim, chars_ascii, from_chars_ascii,
}
use qqflow_server.Text.Decimal.{decimal}
use qqflow_server.Text.Integer.{parse_below, parse_below-decimal}
use qqflow_server.Text.Value.{is_decimal, all-decimal}
use qqflow_server.PathSafe.Slug.{all-weaken}
use qqflow_server.Client.Stream.{
  decode_event, Decoder, Item, decode_error, SseFrameState, begin_connection, decode_payload, stash,
  commit, feed, feed_lines, connection,
}

digit_visible : (c : ℕ) → is_decimal c ≡ true → is_whitespace c ≡ false
unfolding is_whitespace
digit_visible c h = ground (arith, h)

drop_end-decimal : (s : Text) → all is_decimal s ≡ true → drop_end is_whitespace s ≡ s
unfolding drop_end
drop_end-decimal [] h = refl
drop_end-decimal (c ∷ s) h =
    let seen = digit_visible c (ground (arith, h)) in
    rw (drop_end, seen) (ap (λ t. c ∷ t) (drop_end-decimal s (ground (arith, h))))

drop_while-decimal : (s : Text) → all is_decimal s ≡ true → drop_while is_whitespace s ≡ s
unfolding drop_while
drop_while-decimal [] h = refl
drop_while-decimal (c ∷ s) h = rw (drop_while, digit_visible c (ground (arith, h))) refl

-- The blank before a number is trimmed.
trim-decimal : (s : Text) → all is_decimal s ≡ true → trim (b' ' ∷ s) ≡ s
unfolding trim drop_while is_whitespace
trim-decimal s h =
    let plain : all is_ascii s ≡ true =
      all-weaken is_decimal is_ascii (λ c k. ground (arith, k)) s h in
    let spaced : all is_ascii (b' ' ∷ s) ≡ true = ground (arith, plain) in
    ap (λ cs. from_chars (drop_end is_whitespace (drop_while is_whitespace cs)))
      (chars_ascii (b' ' ∷ s) spaced)
    ∙ ap (λ cs. from_chars (drop_end is_whitespace cs)) (drop_while-decimal s h)
    ∙ ap from_chars (drop_end-decimal s h)
    ∙ from_chars_ascii s plain

-- What the server writes: a heartbeat comment, or an event with its id.
pub data Frame : Type 0 where
  heartbeat : Text → Frame
  frame : Option ℕ → Text → Text → Frame

abbrev id_line : Option ℕ → List Text
id_line none = []
id_line (some id) = (utf8 "id: " ++ decimal id) ∷ []

abbrev pub lines_of : List Frame → List Text
lines_of [] = []
lines_of (heartbeat t ∷ fs) = (b':' ∷ t) ∷ [] ∷ lines_of fs
lines_of (frame id name payload ∷ fs) =
    id_line id ++ (utf8 "event: " ++ name) ∷ (utf8 "data: " ++ payload) ∷ [] ∷ lines_of fs

abbrev id_fits : Option ℕ → Bool
id_fits none = true
id_fits (some id) = ltb id 18446744073709551616

abbrev pub frame_fits : Frame → Bool
frame_fits (heartbeat t) = true
frame_fits (frame id name payload) = id_fits id

-- The cursor after frames: the id of the last one that has one.
abbrev pub cursor_after : List Frame → Option ℕ → Option ℕ
cursor_after [] c = c
cursor_after (heartbeat t ∷ fs) c = cursor_after fs c
cursor_after (frame none name payload ∷ fs) c = cursor_after fs c
cursor_after (frame (some id) name payload ∷ fs) c = cursor_after fs (some id)

module _ {V M S N : Type 0} (decoder : Decoder V M S N) where
  abbrev item_of : Text → Item M S N
  item_of payload = elim (decoder.from_str payload) [
    | none ↦ decode_error
    | some v ↦ decode_event decoder (unwrap_or [] (decoder.event v)) v
  ]

  abbrev pub items_of : List Frame → List (Item M S N)
  items_of [] = []
  items_of (heartbeat t ∷ fs) = items_of fs
  items_of (frame id name payload ∷ fs) = item_of payload ∷ items_of fs

  feed-event :
      (name : Text) (st : SseFrameState) → feed decoder (utf8 "event: " ++ name) st ≡ (none, st)
  unfolding feed
  feed-event name st = refl

  feed-heartbeat : (t : Text) (st : SseFrameState) → feed decoder (b':' ∷ t) st ≡ (none, st)
  unfolding feed
  feed-heartbeat t st = refl

  feed-blank : (st : SseFrameState) → feed decoder [] st ≡ (none, st)
  unfolding feed
  feed-blank st = refl

  feed-data :
      (p : Text) (st : SseFrameState)
      → feed decoder (utf8 "data: " ++ p) st ≡ (some (item_of p), commit st)
  unfolding feed decode_payload
  feed-data p st = refl

  feed-id :
      (id : ℕ) (st : SseFrameState)
      → id < 18446744073709551616
      → feed decoder (utf8 "id: " ++ decimal id) st ≡ (none, record st { pending_id = some id })
  unfolding feed
  feed-id id st h =
      ap (λ t. (none, stash (parse_below 18446744073709551616 t) st))
        (trim-decimal (decimal id) (all-decimal id))
      ∙ ap (λ o. (none, stash o st)) (parse_below-decimal 18446744073709551616 id (omega (arith)) h)

  abbrev at : Option ℕ → SseFrameState
  at c = record { pending_id = none; last_event_id = c }

  -- What a cut connection is worth: the items of the first `k` frames, with their cursor.
  abbrev pub IsPrefix : List Frame → Option ℕ → List (Item M S N) × SseFrameState → Type 0
  IsPrefix fs c out =
      (k : ℕ) × (out.0 ≡ items_of (take k fs)) × (out.1.last_event_id ≡ cursor_after (take k fs) c)

  skipped :
      (line : Text) (lines : List Text) (st st' : SseFrameState)
      → feed decoder line st ≡ (none, st')
      → feed_lines decoder (line ∷ lines) st ≡ feed_lines decoder lines st'
  unfolding feed_lines
  skipped line lines st st' h = rw h refl

  delivered :
      (line : Text) (lines : List Text) (st st' : SseFrameState) (i : Item M S N)
      → feed decoder line st ≡ (some i, st')
      → feed_lines decoder (line ∷ lines) st
        ≡ (i ∷ (feed_lines decoder lines st').0, (feed_lines decoder lines st').1)
  unfolding feed_lines
  delivered line lines st st' i h = rw h refl

  empty_cut :
      (fs : List Frame) (id c : Option ℕ)
      → IsPrefix fs c (feed_lines decoder [] (record { pending_id = id; last_event_id = c }))
  unfolding feed_lines
  empty_cut fs id c = (0, refl, refl)

  with_heartbeat :
      (t : Text) (fs : List Frame) (c : Option ℕ) (r : List (Item M S N) × SseFrameState)
      → IsPrefix fs c r
      → IsPrefix (heartbeat t ∷ fs) c r
  with_heartbeat t fs c r (k, items, cursor) = (suc k, items, cursor)

  with_frame :
      (id : Option ℕ) (name p : Text) (fs : List Frame) (c : Option ℕ)
      (r : List (Item M S N) × SseFrameState)
      → IsPrefix fs (or_else id c) r
      → IsPrefix (frame id name p ∷ fs) c (item_of p ∷ r.0, r.1)
  with_frame none name p fs c r (k, items, cursor) =
      (suc k, ap (λ is. item_of p ∷ is) items, cursor)
  with_frame (some id) name p fs c r (k, items, cursor) =
      (suc k, ap (λ is. item_of p ∷ is) items, cursor)

  committed :
      (id c : Option ℕ) → commit (record { pending_id = id; last_event_id = c }) ≡ at (or_else id c)
  committed none c = refl
  committed (some id) c = refl

  blank :
      (n : ℕ) (lines : List Text) (st : SseFrameState)
      → feed_lines decoder (take (suc n) ([] ∷ lines)) st ≡ feed_lines decoder (take n lines) st
  blank n lines st = skipped [] (take n lines) st st (feed-blank st)

  -- The blank line that ends a frame.
  blank_cut :
      (n : ℕ) (fs : List Frame) (c : Option ℕ)
      → ((m : ℕ) → IsPrefix fs c (feed_lines decoder (take m (lines_of fs)) (at c)))
      → IsPrefix fs c (feed_lines decoder (take n ([] ∷ lines_of fs)) (at c))
  blank_cut zero fs c rest = empty_cut fs none c
  blank_cut (suc n) fs c rest = subst (IsPrefix fs c) (sym (blank n (lines_of fs) (at c))) (rest n)

  -- The lines of an event after its id, with the id that is pending.
  event_cut :
      (n : ℕ) (fs : List Frame) (id : Option ℕ) (c : Option ℕ) (name p : Text)
      → ((m : ℕ)
          → IsPrefix fs
              (or_else id c)
              (feed_lines decoder (take m (lines_of fs)) (at (or_else id c))))
      → IsPrefix (frame id name p ∷ fs) c (
          feed_lines decoder
            (take n ((utf8 "event: " ++ name) ∷ (utf8 "data: " ++ p) ∷ [] ∷ lines_of fs))
            (record { pending_id = id; last_event_id = c }))
  event_cut zero fs id c name p rest = empty_cut (frame id name p ∷ fs) id c
  event_cut (suc zero) fs id c name p rest =
      let st : SseFrameState = record { pending_id = id; last_event_id = c } in
      subst (IsPrefix (frame id name p ∷ fs) c)
        (sym (skipped (utf8 "event: " ++ name) [] st st (feed-event name st)))
        (empty_cut (frame id name p ∷ fs) id c)
  event_cut (suc (suc n)) fs id c name p rest =
      let st : SseFrameState = record { pending_id = id; last_event_id = c } in
      let lines = take n ([] ∷ lines_of fs) in
      subst (IsPrefix (frame id name p ∷ fs) c)
        (sym (
          skipped (utf8 "event: " ++ name) ((utf8 "data: " ++ p) ∷ lines) st st (feed-event name st)
          ∙ delivered (utf8 "data: " ++ p) lines st (at (or_else id c)) (item_of p)
              (feed-data p st ∙ ap (λ t. (some (item_of p), t)) (committed id c))))
        (with_frame id name p fs c (feed_lines decoder lines (at (or_else id c)))
          (blank_cut n fs (or_else id c) rest))

  cut-IsPrefix :
      (n : ℕ) (fs : List Frame) (c : Option ℕ)
      → all frame_fits fs ≡ true
      → IsPrefix fs c (feed_lines decoder (take n (lines_of fs)) (at c))
  cut-IsPrefix zero fs c h = empty_cut fs none c
  cut-IsPrefix (suc n) [] c h = empty_cut [] none c
  cut-IsPrefix (suc n) (heartbeat t ∷ fs) c h =
      subst (IsPrefix (heartbeat t ∷ fs) c)
        (sym
          (skipped (b':' ∷ t) (take n ([] ∷ lines_of fs)) (at c) (at c) (feed-heartbeat t (at c))))
        (with_heartbeat t fs c (feed_lines decoder (take n ([] ∷ lines_of fs)) (at c))
          (blank_cut n fs c (λ m. cut-IsPrefix m fs c (ground (arith, h)))))
  cut-IsPrefix (suc n) (frame none name p ∷ fs) c h =
      event_cut (suc n) fs none c name p (λ m. cut-IsPrefix m fs c (ground (arith, h)))
  cut-IsPrefix (suc n) (frame (some id) name p ∷ fs) c h =
      subst (IsPrefix (frame (some id) name p ∷ fs) c)
        (sym (
          skipped (utf8 "id: " ++ decimal id)
            (take n ((utf8 "event: " ++ name) ∷ (utf8 "data: " ++ p) ∷ [] ∷ lines_of fs)) (at c)
            (record { pending_id = some id; last_event_id = c })
            (feed-id id (at c) (ground (arith, h)))))
        (event_cut n fs (some id) c name p (λ m. cut-IsPrefix m fs (some id) (ground (arith, h))))

  -- Wherever a connection is cut, after any number `n` of the lines of frames whose ids fit 64
  -- bits, what was handed over is the items of the first `k` frames for some `k`, and the cursor
  -- that the next connection sends is the last id among those frames, or else the old cursor: no
  -- event that was not handed over is skipped. An id that a previous connection left pending is
  -- dropped.
  pub connection-IsPrefix :
      (n : ℕ) (fs : List Frame) (st : SseFrameState)
      → all frame_fits fs ≡ true
      → IsPrefix fs st.last_event_id (connection decoder (take n (lines_of fs)) st)
  unfolding connection begin_connection
  connection-IsPrefix n fs st h = cut-IsPrefix n fs st.last_event_id h
