-- ===== src/PathOptimizer/Compress.antt =====
-- device_gateway/path_optimizer.py, `compress`: a Douglas-Peucker simplification with an explicit stack.
-- `to_line` stands for `_point_to_line_distance` on finite coordinates, and is used by its order only.
pub mod Within
use qwen.Prelude.{
  ℕ, zero, suc, ◌+◌, ◌-◌, ◌*◌, Bool, true, false, Option, none, some, List, [], ◌∷◌, ◌==◌, ltb, leb,
  if◌then◌else◌, length,
}
use qwen.PathOptimizer.{Point}

unfoldable pub mem : ℕ → List ℕ → Bool
mem i [] = false
mem i (j ∷ js) = if j == i then true else mem i js

-- `d > max_dist`; `none` is the first value, -1.
abbrev pub is_more : ℕ → Option ℕ → Bool
is_more d none = true
is_more d (some m) = ltb m d

-- The loop over `range(start + 1, end)`: `max_dist` and `max_idx`.
unfoldable pub farthest : (ℕ → ℕ) → ℕ → ℕ → Option ℕ → ℕ → Option ℕ × ℕ
farthest d zero i best idx = (best, idx)
farthest d (suc count) i best idx =
    let more = is_more (d i) best in
    farthest d count (suc i) (if more then some (d i) else best) (if more then i else idx)

-- `max_dist > tolerance`
abbrev pub exceeds : ℕ → Option ℕ → Bool
exceeds tolerance none = false
exceeds tolerance (some m) = ltb tolerance m

module _ (line : ℕ → ℕ → ℕ → ℕ) (tolerance : ℕ) where
  -- The `while` loop, the top of the stack first; `none` where the fuel runs out. `line s e i` is the
  -- distance of the point `i` from the line of the points `s` and `e`.
  unfoldable pub compress_loop : ℕ → List (ℕ × ℕ) → List ℕ → Option (List ℕ)
  compress_loop zero stack keep = none
  compress_loop (suc fuel) [] keep = some keep
  compress_loop (suc fuel) ((s, e) ∷ stack) keep =
      let (best, m) = farthest (line s e) (e - s - 1) (s + 1) none s in
      let skipped = compress_loop fuel stack keep in
      let split = compress_loop fuel ((m, e) ∷ (s, m) ∷ stack) (m ∷ keep) in
      if leb e (s + 1) then skipped else if exceeds tolerance best then split else skipped

-- The points with an index of `keep`, in the order of their indices; the number is that of the head.
unfoldable pub pick : {A : Type 0} → ℕ → List ℕ → List (Point A) → List (Point A)
pick i keep [] = []
pick i keep (p ∷ ps) = let rest = pick (suc i) keep ps in if mem i keep then p ∷ rest else rest

-- `path[i]`; the loop reads no index that is out of range.
abbrev pub place_at : {A : Type 0} → Point A → List (Point A) → ℕ → A
place_at p ps zero = p.place
place_at p [] (suc i) = p.place
place_at p (q ∷ ps) (suc i) = place_at q ps i

module _ {A : Type 0} (to_line : A → A → A → ℕ) where
  abbrev pub line_of : Point A → List (Point A) → ℕ → ℕ → ℕ → ℕ
  line_of p ps s e i = to_line (place_at p ps i) (place_at p ps s) (place_at p ps e)

module _ {A : Type 0} (to_line : A → A → A → ℕ) (tolerance : ℕ) where
  -- The indices that are kept of a path with the first point `p` and more points than two.
  unfoldable pub kept : Point A → List (Point A) → Option (List ℕ)
  kept p ps =
      let end = length ps in
      compress_loop (line_of to_line p ps) tolerance (2 * end + 1) ((0, end) ∷ []) (0 ∷ end ∷ [])

  unfoldable pub compress : List (Point A) → Option (List (Point A))
  compress [] = some []
  compress (p ∷ ps) =
      if leb (length ps) 1
      then some (p ∷ ps)
      else elim (kept p ps) [ none ↦ none | some keep ↦ some (pick 0 keep (p ∷ ps)) ]
