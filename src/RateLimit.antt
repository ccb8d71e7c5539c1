-- ===== src/RateLimit.antt =====
-- device_logic/rate_limit.py: `RateLimiter`, a sliding window for each key. The monotonic clock's
-- reading is an argument, in whole microseconds, and `cutoff` is compared without a subtraction.
pub mod Window
pub mod Granted
pub mod Keys
mod Tests
use qwen.Prelude.{
  ℕ, zero, ◌+◌, ◌-◌, ◌≤◌, String, Bool, true, false, Option, none, some, List, [], ◌∷◌, ◌++◌, ltb,
  leb, ◌==◌, if◌then◌else◌, length, select,
}
use qwen.Prelude.Dict.{Dict, get, put, remove, get_or, has}

pub record Limiter : Type 0 where
  pub max_calls : ℕ
  pub window : ℕ
  pub calls : Dict (List ℕ)

-- `_MAX_KEYS`
abbrev pub max_keys : ℕ
max_keys = 10000

-- The constructor; `none` where it raises `ValueError`.
pub init : ℕ → ℕ → Option Limiter
init max_calls window =
    if ltb max_calls 1
    then none
    else if window == 0
    then none
    else some (record { max_calls = max_calls; window = window; calls = [] })

-- The last time of a deque; `none` stands for `inf`.
last_call : List ℕ → Option ℕ
last_call [] = none
last_call (t ∷ []) = some t
last_call (t ∷ u ∷ times) = last_call (u ∷ times)

is_older : Option ℕ → Option ℕ → Bool
is_older none b = false
is_older (some a) none = true
is_older (some a) (some b) = ltb a b

-- `min` over the keys: the first key whose last call is the oldest.
oldest_key : String → Option ℕ → Dict (List ℕ) → String
unfolding last_call is_older
oldest_key key best [] = key
oldest_key key best ((k, times) ∷ rest) =
    if is_older (last_call times) best
    then oldest_key k (last_call times) rest
    else oldest_key key best rest

evict_oldest : Dict (List ℕ) → Dict (List ℕ)
unfolding oldest_key
evict_oldest [] = []
evict_oldest ((k, times) ∷ rest) = remove (oldest_key k (last_call times) rest) ((k, times) ∷ rest)

-- The eviction before a new key is put in.
pub make_room : String → Dict (List ℕ) → Dict (List ℕ)
unfolding evict_oldest
make_room key calls =
    if has key calls
    then calls
    else if leb max_keys (length calls)
    then evict_oldest calls
    else calls

-- The loop that drops the times outside the window.
pub purge : ℕ → ℕ → List ℕ → List ℕ
purge window now [] = []
purge window now (t ∷ times) =
    let rest = purge window now times in if leb (t + window) now then rest else t ∷ times

-- What the test does to the key's own times.
pub admit : ℕ → ℕ → ℕ → List ℕ → List ℕ × Bool
unfolding purge
admit max_calls window now times =
    let kept = purge window now times in
    if leb max_calls (length kept) then (kept, false) else (kept ++ now ∷ [], true)

pub is_allowed : String → ℕ → Limiter → Limiter × Bool
is_allowed key now l =
    let calls = make_room key l.calls in
    let (times, allowed) = admit l.max_calls l.window now (get_or key calls []) in
    (record l { calls = put key times calls }, allowed)

-- `check`: the exception's message aside, `none` is the return and `some` the exception.
pub data RateLimitExceeded : Type 0 where
  rate_limit_exceeded : ℕ → ℕ → RateLimitExceeded

pub check : String → ℕ → Limiter → Limiter × Option RateLimitExceeded
unfolding is_allowed
check key now l =
    let (l', allowed) = is_allowed key now l in
    (l', if allowed then none else some (rate_limit_exceeded l.max_calls l.window))

pub reset : String → Limiter → Limiter
reset key l = record l { calls = remove key l.calls }

pub reset_all : Limiter → Limiter
reset_all l = record l { calls = [] }

-- `max(0, …)` is the subtraction's stop at 0.
pub remaining : String → ℕ → Limiter → ℕ
remaining key now l =
    l.max_calls - length (select (λ t. ltb now (t + l.window)) (get_or key l.calls []))
