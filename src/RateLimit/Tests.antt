-- ===== src/RateLimit/Tests.antt =====
-- Runs of the limiter, and the theorems at them.
use qwen.Prelude.{ℕ, ◌≤◌, ◌≡◌, refl, String, true, some, List, [], ◌∷◌, arith, length}
use qwen.Prelude.Dict.{get, put}
use qwen.RateLimit.{Limiter, init, admit, purge, make_room, is_allowed}
use qwen.RateLimit.Window.{within}
use qwen.RateLimit.Granted.{granted, IsOrdered, is_kept, granted_bounded}

abbrev two_per_minute : Limiter
two_per_minute = record { max_calls = 2; window = 60; calls = [] }

abbrev four_calls : List (String × ℕ)
four_calls = ("ann", 5) ∷ ("ann", 10) ∷ ("bob", 20) ∷ ("ann", 30) ∷ ("ann", 65) ∷ []

granted_ann : granted "ann" four_calls two_per_minute ≡ 5 ∷ 10 ∷ 65 ∷ []
unfolding granted is_allowed admit purge make_room get put
granted_ann = refl

made : init 2 60 ≡ some two_per_minute
unfolding init
made = refl

kept : is_kept "ann" four_calls two_per_minute ≡ true
unfolding is_kept is_allowed admit purge make_room get put
kept = refl

granted_bounded_example : length (within 60 4 (granted "ann" four_calls two_per_minute)) ≤ 2
unfolding IsOrdered
granted_bounded_example =
    granted_bounded "ann" 4 2 60 four_calls two_per_minute made
      (omega arith, (omega arith, (omega arith, (omega arith, (omega arith, tt))))) kept

abbrev after_two : Limiter
after_two = record { max_calls = 2; window = 60; calls = ("ann", 5 ∷ 10 ∷ []) ∷ [] }
