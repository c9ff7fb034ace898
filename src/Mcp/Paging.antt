-- ===== src/Mcp/Paging.antt =====
-- src/mcp.rs: an agent that follows `nextOffset` is shown every row once.
use mathlib.Core.List.{append_assoc, append-nil}
use qqflow_server.Prelude.{
  ℕ, zero, suc, ◌+◌, ◌-◌, ◌≤◌, ◌<◌, ◌≡◌, refl, sym, ap, ◌∙◌, true, false, Bool-cases, inl, inr,
  ◌&&◌, Option, none, some, List, [], ◌∷◌, ◌++◌, map, take, drop, length, length-append,
  length-take, length-drop, take-append-drop, drop-append_self, drop-drop, ltb, and_then, arith,
  if◌then◌else◌,
}
use qqflow_server.Server.Requests.{Result, ok}
use qqflow_server.Mcp.Pages.{
  char_budget, clamp_limit, native_message_keys, answered, tool_error, internal_error, ClientError,
  fill, project_messages, Json, MessageQuery, Page, Shown, filter_map,
}
use qqflow_server.Mcp.{pick, project_list, shown, get_messages_raw}

-- What `fill` adds to the rows it has, and what it leaves out: it takes a row when it has none.
record Filled {V : Type 0} (taken items out : List V) : Type 0 where
  fit : List V
  cut : List V
  out_fit : out ≡ taken ++ fit
  all_of : items ≡ fit ++ cut
  moves : 1 ≤ length items → length taken ≡ 0 → 1 ≤ length fit

fill-Filled :
    {V : Type 0}
    → (size : V → ℕ) (budget : ℕ) (items taken : List V) (used : ℕ)
    → Filled taken items (fill size budget items taken used)
unfolding fill
fill-Filled size budget [] taken used = record {
  fit = [];
  cut = [];
  out_fit = sym (append-nil taken);
  all_of = refl;
  moves = λ h e. absurd (omega (arith, h));
}
fill-Filled size budget (item ∷ items) taken used =
    let rest = fill-Filled size budget items (taken ++ item ∷ []) (used + size item) in
    elim (Bool-cases (ltb 0 (length taken) && ltb budget (used + size item))) [
      | inl e ↦ record {
        fit = [];
        cut = item ∷ items;
        out_fit = rw (fill, e) (sym (append-nil taken));
        all_of = refl;
        moves = λ h k. absurd (ground (arith, e, k));
      }
      | inr e ↦ record {
        fit = item ∷ rest.fit;
        cut = rest.cut;
        out_fit = rw (fill, e) (rest.out_fit ∙ append_assoc taken (item ∷ []) rest.fit);
        all_of = ap (λ is. item ∷ is) rest.all_of;
        moves = λ h k. omega arith;
      }
    ]

length_zero : {A : Type 0} → (xs : List A) → length xs ≡ 0 → xs ≡ []
length_zero [] h = refl
length_zero (x ∷ xs) h = absurd (omega (arith, h))

clamp_limit_pos : (v : Option ℕ) → 1 ≤ clamp_limit v
clamp_limit_pos none = omega arith
clamp_limit_pos (some n) = ground arith

-- What the server answers, row by row of `all`: the rows behind an offset, up to a limit.
abbrev pub slice : {M : Type 0} → List M → ℕ → ℕ → Page M
slice all start limit =
    let rows = take limit (drop start all) in
    record { rows = rows; has_more = ltb (start + length rows) (length all) }

module _ {V M : Type 0} (json : Json V) (val : M → V) where
  -- The rows as a tool shows them.
  abbrev pub view : List M → List V
  view ms = project_list json (map val ms) native_message_keys

  view-append : (ms ns : List M) → view (ms ++ ns) ≡ view ms ++ view ns
  view-append [] ns = refl
  view-append (m ∷ ms) ns = ap (λ t. pick json native_message_keys (val m) ∷ t) (view-append ms ns)

  length-view : (ms : List M) → length (view ms) ≡ length ms
  length-view [] = omega arith
  length-view (m ∷ ms) = omega (arith, length-view ms)

  filter_map-val :
      (to_value : M → Option V) (ms : List M)
      → ((m : M) → to_value m ≡ some (val m))
      → filter_map to_value ms ≡ map val ms
  filter_map-val to_value [] h = refl
  filter_map-val to_value (m ∷ ms) h =
      rw (filter_map, h m) (ap (λ t. val m ∷ t) (filter_map-val to_value ms h))

  -- One page: it shows the first rows behind the offset, at least one while there are more.
  record IsPageOf (all : List M) (start : ℕ) (r : Shown V) : Type 0 where
    left : List V
    rows_first : view (drop start all) ≡ r.rows ++ left
    next : r.next_offset ≡ start + length r.rows
    moving : r.has_more ≡ true → 1 ≤ length r.rows
    ended : r.has_more ≡ false → left ≡ []

  abbrev page_shown : List M → ℕ → ℕ → Shown V
  page_shown all start limit =
      shown json start
        (project_messages json.size (view (take limit (drop start all))) limit char_budget)
        (ltb (start + length (take limit (drop start all))) (length all))

  page_shown-IsPageOf :
      (all : List M) (start limit : ℕ) → 1 ≤ limit → IsPageOf all start (page_shown all start limit)
  unfolding project_messages
  page_shown-IsPageOf all start limit pos =
      let rows = take limit (drop start all) in
      let rest = drop limit (drop start all) in
      let xs = view rows in
      let kept = fill json.size char_budget (take limit xs) [] 0 in
      let filled = fill-Filled json.size char_budget (take limit xs) [] 0 in
      let left' = filled.cut ++ (drop limit xs ++ view rest) in
      let whole : view (drop start all) ≡ kept ++ left' =
        ap view (sym (take-append-drop limit (drop start all)))
        ∙ view-append rows rest
        ∙ ap (λ t. t ++ view rest)
            (sym (take-append-drop limit xs) ∙ ap (λ t. t ++ drop limit xs) filled.all_of)
        ∙ ap (λ t. t ++ view rest) (append_assoc filled.fit filled.cut (drop limit xs))
        ∙ append_assoc filled.fit (filled.cut ++ drop limit xs) (view rest)
        ∙ ap (λ t. filled.fit ++ t) (append_assoc filled.cut (drop limit xs) (view rest))
        ∙ ap (λ t. t ++ left') (sym filled.out_fit) in
      let sizes : length (kept ++ left') ≡ length all - start =
        ap length (sym whole) ∙ length-view (drop start all) ∙ length-drop start all in
      let parts = length-append kept left' in
      let xs_size = length-view rows in
      let rows_size = length-take limit (drop start all) in
      let behind = length-drop start all in
      let first_size = length-take limit xs in
      let kept_size : length kept ≡ length filled.fit = ap length filled.out_fit in
      record {
        left = left';
        rows_first = whole;
        next = refl;
        moving = λ h. ground (
          arith, h, filled.moves, pos, parts, sizes, xs_size, rows_size, behind, first_size,
          kept_size,
        );
        ended =
            λ h. length_zero left' (ground (arith, h, parts, sizes, xs_size, rows_size, behind));
      }

  drop-view : (k : ℕ) (ms : List M) → drop k (view ms) ≡ view (drop k ms)
  drop-view zero ms = refl
  drop-view (suc k) [] = refl
  drop-view (suc k) (m ∷ ms) = drop-view k ms

  -- A page and the rows behind it are the rows from the page on.
  joined :
      (all : List M) (start : ℕ) (r : Shown V)
      → IsPageOf all start r
      → r.rows ++ view (drop r.next_offset all) ≡ view (drop start all)
  joined all start r page =
      let behind : view (drop r.next_offset all) ≡ page.left =
        ap (λ k. view (drop k all)) page.next
        ∙ ap view (sym (drop-drop (length r.rows) start all))
        ∙ sym (drop-view (length r.rows) (drop start all))
        ∙ ap (drop (length r.rows)) page.rows_first
        ∙ drop-append_self r.rows page.left in
      ap (λ t. r.rows ++ t) behind ∙ sym page.rows_first

  shrinks :
      (all : List M) (start n : ℕ) (r : Shown V)
      → IsPageOf all start r
      → 1 ≤ length r.rows
      → length all - start < suc n
      → length all - r.next_offset < n
  shrinks all start n r page pos h =
      let sizes : length (r.rows ++ page.left) ≡ length all - start =
        ap length (sym page.rows_first) ∙ length-view (drop start all) ∙ length-drop start all in
      omega (arith, page.next, pos, h, sizes, length-append r.rows page.left)

-- An agent that calls `get_messages_raw` again with `nextOffset` while `hasMore` says so, in at
-- most `n` calls.
abbrev pub read_all :
    {V M : Type 0}
    → Json V
    → (M → Option V)
    → (MessageQuery → Result (Page M) ClientError)
    → MessageQuery
    → ℕ
    → ℕ
    → Option (List V)
read_all json to_value list_messages a zero start = none
read_all json to_value list_messages a (suc n) start =
    elim (get_messages_raw json to_value list_messages (record a { offset = some start })) [
      | answered r ↦
          if r.has_more
          then and_then (read_all json to_value list_messages a n r.next_offset)
              (λ more. some (r.rows ++ more))
          else some r.rows
      | tool_error e ↦ none
      | internal_error e ↦ none
    ]

module _ {V M : Type 0} (json : Json V) (val : M → V) (to_value : M → Option V)
    (list_messages : MessageQuery → Result (Page M) ClientError) (a : MessageQuery) (all : List M)
    (serial : (m : M) → to_value m ≡ some (val m))
    (server : (start limit : ℕ)
      → list_messages (record a { limit = some limit; offset = some start })
        ≡ ok (slice all start limit)) where
  page_at :
      (start : ℕ)
      → get_messages_raw json to_value list_messages (record a { offset = some start })
        ≡ answered (page_shown json val all start (clamp_limit a.limit))
  unfolding get_messages_raw
  page_at start =
      let limit = clamp_limit a.limit in
      rw (server start limit) (
        ap
          (λ vs. answered (
            shown json start
              (project_messages json.size (project_list json vs native_message_keys) limit
                char_budget)
              (ltb (start + length (take limit (drop start all))) (length all))))
          (filter_map-val json val to_value (take limit (drop start all)) serial))

  read_on :
      (n start : ℕ)
      → length all - start < n
      → read_all json to_value list_messages a n start ≡ some (view json val (drop start all))
  read_on zero start h = absurd (omega (arith, h))
  read_on (suc n) start h =
      let r = page_shown json val all start (clamp_limit a.limit) in
      let page =
        page_shown-IsPageOf json val all start (clamp_limit a.limit) (clamp_limit_pos a.limit) in
      elim (Bool-cases r.has_more) [
        | inl e ↦
            rw (read_all, page_at start, e)
              (ap (λ o. and_then o (λ more. some (r.rows ++ more)))
                  (read_on n r.next_offset (shrinks json val all start n r page (page.moving e) h))
                ∙ ap some (joined json val all start r page))
        | inr e ↦
            rw (read_all, page_at start, e)
              (ap some
                (sym (page.rows_first ∙ ap (λ t. r.rows ++ t) (page.ended e) ∙ append-nil r.rows)))
      ]

  -- Where every message has a JSON value and the server answers with the rows behind the offset, up
  -- to the limit, and says whether there are more, an agent that follows `nextOffset` while
  -- `hasMore` holds is shown every row of the server, projected, once and in order, whatever the
  -- limit and however much the character budget cuts: a page always has a row while there are more,
  -- so as many calls as there are rows, and one, are enough.
  pub get_messages_raw-view :
      read_all json to_value list_messages a (suc (length all)) 0 ≡ some (view json val all)
  get_messages_raw-view = read_on (suc (length all)) 0 (omega arith)
