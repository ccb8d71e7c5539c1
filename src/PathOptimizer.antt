-- ===== src/PathOptimizer.antt =====
-- device_gateway/path_optimizer.py: the order in which a plotter draws the segments of a path. Points
-- are compared by `dist` only, which stands for `_dist`: a finite distance is a natural number, since only
-- the order of distances is used, and `math.hypot` may also give infinity or NaN. A place is the pair of `x` and `y`, and `z` is
-- known by its sign.
pub mod Reorder
pub mod Travel
pub mod Compress
mod Tests
use qwen.Prelude.{
  ℕ, zero, suc, ◌+◌, ◌-◌, ◌≡◌, Bool, true, false, ◌&&◌, not, Option, none, some, List, [], ◌∷◌,
  ◌++◌, ltb, ◌==◌, if◌then◌else◌, length,
}

pub data Height : Type 0 where
  below paper above : Height

pub record Point (A : Type 0) : Type 0 where
  pub place : A
  pub z : Height
  pub pen_up : Bool

-- A list of points that is not empty: its first point and the others.
abbrev pub Segment : Type 0 → Type 0
Segment A = Point A × List (Point A)

abbrev is_paper : Height → Bool
is_paper paper = true
is_paper _ = false

abbrev is_above : Height → Bool
is_above above = true
is_above _ = false

module _ {A : Type 0} where
  abbrev pub points : Segment A → List (Point A)
  points s = s.0 ∷ s.1

  unfoldable pub reverse_onto : Point A → List (Point A) → List (Point A) → Segment A
  reverse_onto p [] acc = (p, acc)
  reverse_onto p (q ∷ qs) acc = reverse_onto q qs (p ∷ acc)

  -- `seg.reverse()`
  unfoldable pub reverse_segment : Segment A → Segment A
  unfolding reverse_onto
  reverse_segment s = reverse_onto s.0 s.1 []

  -- `seg[-1]`
  unfoldable pub last_of : Segment A → Point A
  unfolding reverse_onto
  last_of s = (reverse_onto s.0 s.1 []).0

  -- `if current: segments.append(current)`
  abbrev pub flush : List (Point A) → List (Segment A) → List (Segment A)
  flush [] segments = segments
  flush (p ∷ ps) segments = (p, ps) ∷ segments

  -- The loop of `_split_by_pen_up`: `current`, and `in_travel`.
  unfoldable pub split_loop : List (Point A) → List (Point A) → Bool → List (Segment A)
  split_loop [] current in_travel = flush current []
  split_loop (p ∷ ps) current in_travel =
      let cut = split_loop ps [] true in
      let still = split_loop ps current true in
      let drawn = split_loop ps (current ++ p ∷ []) false in
      if p.pen_up
      then flush current cut
      else if in_travel
      then (if is_paper p.z then drawn else still)
      else if is_above p.z
      then flush current cut
      else drawn

  unfoldable pub split_by_pen_up : List (Point A) → List (Segment A)
  split_by_pen_up path = split_loop path [] false

pub data Cost : Type 0 where
  finite : ℕ → Cost
  infinite not_a_number : Cost

-- `<` on floats that are not negative.
abbrev pub lt : Cost → Cost → Bool
lt (finite a) (finite b) = ltb a b
lt (finite a) infinite = true
lt _ _ = false

-- `best_cost`, `best_idx` and `best_reversed`; `none` is where none of them was set.
abbrev pub Best : Type 0
Best = Option (Cost × ℕ × Bool)

abbrev pub is_less : Cost → Best → Bool
is_less c none = lt c infinite
is_less c (some (b, i, r)) = lt c b

module _ {A : Type 0} (dist : A → A → Cost) where
  -- One item of the loop over `remaining`.
  abbrev pub better : A → ℕ → Segment A → Best → Best
  better here i s best =
      let normal = dist here s.0.place in
      let reversed = dist here (last_of s).place in
      if lt reversed normal && is_less reversed best
      then some (reversed, i, true)
      else if is_less normal best
      then some (normal, i, false)
      else best

  -- Each segment has its `visited`; the number is the index of the list's head.
  unfoldable pub find_best : A → ℕ → List (Segment A × Bool) → Best → Best
  find_best here i [] best = best
  find_best here i ((s, visited) ∷ items) best =
      find_best here (suc i) items (if visited then best else better here i s best)

module _ {A : Type 0} where
  unfoldable pub segment_at : ℕ → ℕ → List (Segment A × Bool) → Option (Segment A)
  segment_at i j [] = none
  segment_at i j ((s, visited) ∷ items) = if i == j then some s else segment_at (suc i) j items

  unfoldable pub visit : ℕ → ℕ → List (Segment A × Bool) → List (Segment A × Bool)
  visit i j [] = []
  visit i j ((s, visited) ∷ items) =
      if i == j then (s, true) ∷ items else (s, visited) ∷ visit (suc i) j items

  abbrev pub oriented : Bool → Segment A → Segment A
  oriented reversed s = if reversed then reverse_segment s else s

  abbrev pub unvisited : List (Segment A) → List (Segment A × Bool)
  unvisited [] = []
  unvisited (s ∷ ss) = (s, false) ∷ unvisited ss

module _ {A : Type 0} where
  -- The pen-up move to a segment, and its points.
  unfoldable pub join_from : Point A → List (Segment A) → List (Point A)
  join_from prev [] = []
  join_from prev (s ∷ ss) =
      record s.0 { z = prev.z; pen_up = true } ∷ (points s ++ join_from (last_of s) ss)

  abbrev pub join_segments : List (Segment A) → List (Point A)
  join_segments [] = []
  join_segments (s ∷ ss) = points s ++ join_from (last_of s) ss

-- An index of -1 is the last item.
abbrev pub index_of : Best → ℕ → ℕ
index_of none n = n - 1
index_of (some (c, j, r)) n = j

abbrev pub is_reversed : Best → Bool
is_reversed none = false
is_reversed (some (c, j, r)) = r

module _ {A : Type 0} (dist : A → A → Cost) where
  -- The `while` loop: one segment is chosen in each round, as many as are missing. `none` stands for an
  -- index that is out of range.
  unfoldable pub choose : ℕ → A → List (Segment A × Bool) → Option (List (Segment A))
  choose zero here items = some []
  choose (suc missing) here items =
      let best = find_best dist here 0 items none in
      let j = index_of best (length items) in
      elim (segment_at 0 j items) [
        | none ↦ none
        | some s ↦
            let seg = oriented (is_reversed best) s in
            let rest = choose missing (last_of seg).place (visit 0 j items) in
            elim rest [ none ↦ none | some ss ↦ some (seg ∷ ss) ]
      ]

  unfoldable pub reorder_segments_greedy : List (Segment A) → Option (List (Segment A))
  reorder_segments_greedy [] = some []
  reorder_segments_greedy (s ∷ ss) =
      elim (choose (length ss) (last_of s).place ((s, true) ∷ unvisited ss)) [
        | none ↦ none
        | some rest ↦ some (s ∷ rest)
      ]

  unfoldable pub optimize_travel : List (Point A) → Option (List (Point A))
  optimize_travel path =
      let segments = split_by_pen_up path in
      if ltb 1 (length segments)
      then (elim (reorder_segments_greedy segments) [
        | none ↦ none
        | some ordered ↦ some (join_segments ordered)
      ])
      else some path
