-- ===== src/Store/Media/Pick.antt =====
-- store/media.rs, pick_candidate: the candidate is the best of those whose metadata can be read.
use qqflow_server.Prelude.{
  ◌≡◌, refl, Bool, true, false, Bool-cases, Option-cases, inl, inr, Option, none, some, List, [],
  ◌∷◌, All, All-map, arith,
}
use mathlib.Core.List.{Mem, mem-cons_self, mem-cons_of_mem}
use qqflow_server.Prelude.Int.{ℤ}
use qqflow_server.PathSafe.Contained.{Platform}
use qqflow_server.Text.{Text}
use qqflow_server.Text.Order.{text_lt_trans, text_lt_irrefl}
use qqflow_server.Types.{MsgType}
use qqflow_server.Store.Media.{Score, score_of, is_better, pick_step, pick_from, pick_candidate}

module _ (platform : Platform) where
  better_irrefl : (p : Text) (s : Score) → is_better platform (some (p, s)) p s ≡ false
  better_irrefl p s = ground (arith, text_lt_irrefl p)

  -- Who is no better than one candidate is no better than a better one.
  better_trans :
      (q p b : Text) (u s r : Score)
      → is_better platform (some (b, r)) p s ≡ true
      → is_better platform (some (b, r)) q u ≡ false
      → is_better platform (some (p, s)) q u ≡ false
  better_trans q p b u s r h g = ground (arith, h, g, text_lt_trans q p b)

  -- The path can be read and would replace the best so far.
  abbrev pub beats : MsgType → Option ℤ → Option (Text × Score) → Text → Bool
  beats t want best q = elim (score_of platform t want q) [
    | none ↦ false
    | some u ↦ is_better platform best q u
  ]

  pick_step-own :
      (t : MsgType) (want : Option ℤ) (best : Option (Text × Score)) (p : Text)
      → beats t want (pick_step platform t want best p) p ≡ false
  pick_step-own t want best p = elim (Option-cases (score_of platform t want p)) [
    | inl e ↦ rw (beats, e) refl
    | inr (s, e) ↦ elim (Bool-cases (is_better platform best p s)) [
      | inl f ↦ rw (beats, e) (rw (pick_step, e) (rw f (better_irrefl p s)))
      | inr f ↦ rw (beats, e) (rw (pick_step, e) (rw f f))
    ]
  ]

  beats-replaced :
      (t : MsgType) (want : Option ℤ) (best : Option (Text × Score)) (p q : Text) (u s : Score)
      → score_of platform t want q ≡ some u
      → is_better platform best p s ≡ true
      → beats t want best q ≡ false
      → beats t want (some (p, s)) q ≡ false
  beats-replaced t want none p q u s e g h = ground (arith, rw (beats, e) at h)
  beats-replaced t want (some (b, r)) p q u s e g h =
      rw (beats, e) (better_trans q p b u s r g (rw (beats, e) at h))

  pick_step-keeps :
      (t : MsgType) (want : Option ℤ) (best : Option (Text × Score)) (p q : Text)
      → beats t want best q ≡ false
      → beats t want (pick_step platform t want best p) q ≡ false
  pick_step-keeps t want best p q h = elim (Option-cases (score_of platform t want q)) [
    | inl e ↦ rw (beats, e) refl
    | inr (u, e) ↦ elim (Option-cases (score_of platform t want p)) [
      | inl f ↦ rw (pick_step, f) h
      | inr (s, f) ↦ elim (Bool-cases (is_better platform best p s)) [
        | inr g ↦ rw (pick_step, f) (rw g h)
        | inl g ↦ rw (pick_step, f) (rw g (beats-replaced t want best p q u s e g h))
      ]
    ]
  ]

  pick_from-keeps :
      (t : MsgType) (want : Option ℤ) (best : Option (Text × Score)) (ps : List Text) (q : Text)
      → beats t want best q ≡ false
      → beats t want (pick_from platform t want best ps) q ≡ false
  unfolding pick_from
  pick_from-keeps t want best [] q h = h
  pick_from-keeps t want best (p ∷ ps) q h =
      pick_from-keeps t want (pick_step platform t want best p) ps q
        (pick_step-keeps t want best p q h)

  pick_from-best :
      (t : MsgType) (want : Option ℤ) (best : Option (Text × Score)) (ps : List Text)
      → All (λ q. beats t want (pick_from platform t want best ps) q ≡ false) ps
  unfolding pick_from
  pick_from-best t want best [] = tt
  pick_from-best t want best (p ∷ ps) = (
    pick_from-keeps t want (pick_step platform t want best p) ps p (pick_step-own t want best p),
    pick_from-best t want (pick_step platform t want best p) ps,
  )

  -- A candidate comes from the list, with its score.
  abbrev IsFrom : MsgType → Option ℤ → List Text → Option (Text × Score) → Type 0
  IsFrom t want paths best = elim best [
    | none ↦ Unit
    | some (p, s) ↦ Mem p paths × (score_of platform t want p ≡ some s)
  ]

  pick_step-IsFrom :
      (t : MsgType) (want : Option ℤ) (paths : List Text) (best : Option (Text × Score)) (p : Text)
      → Mem p paths
      → IsFrom t want paths best
      → IsFrom t want paths (pick_step platform t want best p)
  pick_step-IsFrom t want paths best p m h = elim (Option-cases (score_of platform t want p)) [
    | inl e ↦ rw (IsFrom, pick_step, e) h
    | inr (s, e) ↦ elim (Bool-cases (is_better platform best p s)) [
      | inl f ↦ rw (IsFrom, pick_step, e) (rw f (m, e))
      | inr f ↦ rw (IsFrom, pick_step, e) (rw f h)
    ]
  ]

  pick_from-IsFrom :
      (t : MsgType) (want : Option ℤ) (paths : List Text) (best : Option (Text × Score))
      (ps : List Text)
      → ((q : Text) → Mem q ps → Mem q paths)
      → IsFrom t want paths best
      → IsFrom t want paths (pick_from platform t want best ps)
  unfolding pick_from
  pick_from-IsFrom t want paths best [] inside h = h
  pick_from-IsFrom t want paths best (p ∷ ps) inside h =
      pick_from-IsFrom t want paths (pick_step platform t want best p) ps
        (λ q m. inside q (mem-cons_of_mem p m))
        (pick_step-IsFrom t want paths best p (inside p mem-cons_self) h)

  -- What a choice among the paths promises.
  abbrev pub IsChoice : MsgType → Option ℤ → List Text → Option Text → Type 0
  IsChoice t want paths choice = elim choice [
    | none ↦ All (λ q. score_of platform t want q ≡ none) paths
    | some p ↦
        Mem p paths
        × ((s : Score) × (score_of platform t want p ≡ some s)
            × All (λ q. beats t want (some (p, s)) q ≡ false) paths)
  ]

  unread :
      (t : MsgType) (want : Option ℤ) (q : Text)
      → beats t want none q ≡ false
      → score_of platform t want q ≡ none
  unread t want q h = elim (Option-cases (score_of platform t want q)) [
    | inl e ↦ e
    | inr (s, e) ↦ ground (arith, rw (beats, e) at h)
  ]

  -- `pick_candidate` takes a path of the list whose metadata can be read and that no readable path
  -- of the list beats: in the score (extension, size, time of change), then in the text of the path.
  -- It takes none only when no metadata can be read.
  pub pick_candidate-IsChoice :
      (paths : List Text) (t : MsgType) (want : Option ℤ)
      → IsChoice t want paths (pick_candidate platform paths t want)
  unfolding pick_candidate
  pick_candidate-IsChoice paths t want =
      let best = pick_from platform t want none paths in
      let from : IsFrom t want paths best =
        pick_from-IsFrom t want paths none paths (λ q m. m) tt in
      let top : All (λ q. beats t want best q ≡ false) paths = pick_from-best t want none paths in
      elim (Option-cases best) [
        | inl e ↦ rw e (All-map _ _ paths (λ q h. unread t want q h) (rw e at top))
        | inr ((p, s), e) ↦ let origin = rw e at from in rw e (origin.0, (s, origin.1, rw e at top))
      ]
