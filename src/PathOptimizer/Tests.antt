-- ===== src/PathOptimizer/Tests.antt =====
-- Three strokes on a line; the last one is nearer to the first one.
use qwen.Prelude.{
  refl, ℕ, ◌-◌, ◌≡◌, true, false, some, List, [], ◌∷◌, ◌==◌, if◌then◌else◌, ltb, arith, ◌⊎◌,
}
use qwen.PathOptimizer.{
  paper, above, Cost, finite, not_a_number, Point, optimize_travel, split_by_pen_up, split_loop,
  reorder_segments_greedy, choose, find_best, segment_at, visit, join_from, reverse_onto,
  reverse_segment, last_of,
}
use qwen.PathOptimizer.Compress.{mem, pick, line_of, compress}
use qwen.PathOptimizer.Compress.Within.{IsNear, compress_within}
use qwen.PathOptimizer.Travel.{drawn, optimize_travel-drawn}

abbrev distance : ℕ → ℕ → ℕ
distance a b = if ltb a b then b - a else a - b

abbrev down : ℕ → Point ℕ
down n = record { place = n; z = paper; pen_up = false }

abbrev up : ℕ → Point ℕ
up n = record { place = n; z = above; pen_up = false }

abbrev path : List (Point ℕ)
path = down 0 ∷ down 1 ∷ up 9 ∷ down 9 ∷ down 8 ∷ up 3 ∷ down 3 ∷ down 2 ∷ []

abbrev cost : ℕ → ℕ → Cost
cost a b = finite (distance a b)

optimize_travel-drawn_example :
    (result : List (Point ℕ)) × (optimize_travel cost path ≡ some result)
    × (drawn (λ p. p.place == 8) result ≡ drawn (λ p. p.place == 8) path)
optimize_travel-drawn_example = optimize_travel-drawn cost (λ p. p.place == 8) path (λ a b. refl)

-- Where no distance is a number, the last stroke is drawn twice and another one never.
not_drawn :
    optimize_travel (λ (a b : ℕ). not_a_number) path
    ≡ optimize_travel
        (λ (a b : ℕ). not_a_number)
        (down 0 ∷ down 1 ∷ up 3 ∷ down 3 ∷ down 2 ∷ up 3 ∷ down 3 ∷ down 2 ∷ [])
unfolding optimize_travel split_by_pen_up split_loop reorder_segments_greedy choose find_best
    segment_at visit join_from reverse_onto reverse_segment last_of
not_drawn = refl

abbrev bend : List (Point ℕ)
bend = down 1 ∷ down 9 ∷ down 2 ∷ []

-- The distance of a number from the nearer end.
abbrev end_distance : ℕ → ℕ → ℕ → ℕ
end_distance i s e = if ltb (distance i s) (distance i e) then distance i s else distance i e

compress_within_example :
    (keep : List ℕ) × (compress end_distance 3 (down 0 ∷ bend) ≡ some (pick 0 keep (down 0 ∷ bend)))
    × ((mem 1 keep ≡ true) ⊎ IsNear (line_of end_distance (down 0) bend) 3 1 keep)
compress_within_example = compress_within end_distance 3 (down 0) bend 1 (omega arith) (omega arith)
