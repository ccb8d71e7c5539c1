-- ===== src/PathOptimizer/Travel.antt =====
-- The optimised path draws what the path draws.
use qwen.Prelude.{
  ℕ, ◌+◌, ◌≡◌, refl, sym, ◌∙◌, Bool, true, false, ◌&&◌, not, some, List, [], ◌∷◌, ◌++◌, inl, inr,
  arith, ltb, if◌then◌else◌, length, Bool-cases,
}
use qwen.PathOptimizer.{
  Cost, Height, paper, above, below, is_paper, is_above, Point, Segment, points, reverse_onto,
  reverse_segment, last_of, flush, split_loop, split_by_pen_up, join_from, join_segments,
  optimize_travel,
}
use qwen.PathOptimizer.Reorder.{is_finite, total, reorder_total}

above_off_paper : (z : Height) → is_above z ≡ true → is_paper z ≡ false
above_off_paper below h = refl
above_off_paper paper h = sym h
above_off_paper above h = refl

module _ {A : Type 0} (q : Point A → Bool) where
  abbrev pub is_drawn : Point A → Bool
  is_drawn p = not p.pen_up && is_paper p.z && q p

  -- The number of points on the paper with the pen down that `q` accepts.
  pub drawn : List (Point A) → ℕ
  drawn [] = 0
  drawn (p ∷ ps) = (if is_drawn p then 1 else 0) + drawn ps

  drawn-append : (ps qs : List (Point A)) → drawn (ps ++ qs) ≡ drawn ps + drawn qs
  unfolding drawn
  drawn-append [] qs = omega arith
  drawn-append (p ∷ ps) qs = omega (arith, drawn-append ps qs)

  drawn_of : Segment A → ℕ
  unfolding drawn
  drawn_of s = drawn (points s)

  reverse_onto-drawn :
      (p : Point A) (ps acc : List (Point A))
      → drawn (points (reverse_onto p ps acc)) ≡ drawn (p ∷ ps) + drawn acc
  unfolding reverse_onto drawn
  reverse_onto-drawn p [] acc = omega arith
  reverse_onto-drawn p (r ∷ ps) acc = omega (arith, reverse_onto-drawn r ps (p ∷ acc))

  drawn_of-reverse : (s : Segment A) → drawn_of (reverse_segment s) ≡ drawn_of s
  unfolding drawn_of reverse_segment drawn
  drawn_of-reverse s = omega (arith, reverse_onto-drawn s.0 s.1 [])

  flush-drawn :
      (current : List (Point A)) (segments : List (Segment A))
      → total drawn_of (flush current segments) ≡ drawn current + total drawn_of segments
  unfolding total drawn_of drawn
  flush-drawn [] segments = omega arith
  flush-drawn (p ∷ ps) segments = refl

  split_loop-drawn :
      (path current : List (Point A)) (in_travel : Bool)
      → total drawn_of (split_loop path current in_travel) ≡ drawn current + drawn path
  unfolding split_loop drawn total
  split_loop-drawn [] current in_travel = flush-drawn current []
  split_loop-drawn (p ∷ ps) current in_travel = ground (
    arith,
    flush-drawn current (split_loop ps [] true),
    split_loop-drawn ps [] true,
    split_loop-drawn ps current true,
    split_loop-drawn ps (current ++ p ∷ []) false,
    drawn-append current (p ∷ []),
    above_off_paper p.z,
  )

  join_from-drawn :
      (prev : Point A) (ss : List (Segment A)) → drawn (join_from prev ss) ≡ total drawn_of ss
  unfolding join_from drawn drawn_of total
  join_from-drawn prev [] = refl
  join_from-drawn prev (s ∷ ss) =
      omega
        (arith, drawn-append (points s) (join_from (last_of s) ss), join_from-drawn (last_of s) ss)

  join-drawn : (ss : List (Segment A)) → drawn (join_segments ss) ≡ total drawn_of ss
  unfolding drawn drawn_of total
  join-drawn [] = refl
  join-drawn (s ∷ ss) =
      omega
        (arith, drawn-append (points s) (join_from (last_of s) ss), join_from-drawn (last_of s) ss)

none_before :
    {A : Type 0} (q : Point A → Bool) (path : List (Point A))
    → drawn q [] + drawn q path ≡ drawn q path
unfolding drawn
none_before q path = omega arith

module _ {A : Type 0} (dist : A → A → Cost) (q : Point A → Bool) where
  -- Where no distance between two places is infinite or NaN, the optimisation ends, and its path draws what the given path draws: of the points that any test
  -- accepts, both have as many on the paper with the pen down. No point is lost, doubled or added.
  pub optimize_travel-drawn :
      (path : List (Point A))
      → ((a b : A) → is_finite (dist a b) ≡ true)
      → (result : List (Point A)) × (optimize_travel dist path ≡ some result)
        × (drawn q result ≡ drawn q path)
  unfolding optimize_travel split_by_pen_up
  optimize_travel-drawn path finite_dist =
      let segments = split_by_pen_up path in
      let (ordered, reordered, weight) =
        reorder_total dist (drawn_of q) finite_dist (drawn_of-reverse q) segments in
      elim (Bool-cases (ltb 1 (length segments))) [
        | inl many ↦ (
          join_segments ordered,
          rw (optimize_travel, many, reordered) refl,
          join-drawn q ordered ∙ weight ∙ split_loop-drawn q path [] false ∙ none_before q path,
        )
        | inr one ↦ (path, rw (optimize_travel, one) refl, refl)
      ]
