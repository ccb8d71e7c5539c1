-- ===== src/RateLimit/Keys.antt =====
-- The cap on the keys, and what `remaining` says of the next call.
use qwen.Prelude.{
  ℕ, ◌+◌, ◌-◌, ◌≤◌, ◌<◌, ◌≡◌, refl, String, Bool, true, ◌||◌, ◌⊎◌, inl, inr, List, [], ◌∷◌, arith,
  ltb, leb, if◌then◌else◌, eq_refl, length, select, All, length-append, select-append, Bool-cases,
  Option, not,
}
use qwen.Prelude.Dict.{
  Dict, get, remove, get_or, has, get_or-put_self, length-put, length-remove-le,
}
use qwen.RateLimit.{
  Limiter, max_keys, last_call, is_older, oldest_key, evict_oldest, make_room, purge, admit,
  is_allowed, remaining,
}
use qwen.RateLimit.Granted.{make_room-get_or}

has-tail :
    (k i : String) (times : List ℕ) (rest : Dict (List ℕ))
    → has k rest ≡ true
    → has k ((i, times) ∷ rest) ≡ true
unfolding get
has-tail k i times rest h = ground (arith, h)

-- The key that is dropped is one of the keys.
oldest_key-has :
    (key : String) (best : Option ℕ) (rest : Dict (List ℕ))
    → (oldest_key key best rest ≡ key) ⊎ (has (oldest_key key best rest) rest ≡ true)
unfolding oldest_key
oldest_key-has key best [] = inl refl
oldest_key-has key best ((k, times) ∷ rest) = elim (Bool-cases (is_older (last_call times) best)) [
  | inl e ↦ elim (oldest_key-has k (last_call times) rest) [
    | inl h ↦ inr (rw (e, h) (unfold get in rw (eq_refl k) refl))
    | inr h ↦ inr (rw e (has-tail _ k times rest h))
  ]
  | inr e ↦ elim (oldest_key-has key best rest) [
    | inl h ↦ inl (rw e h)
    | inr h ↦ inr (rw e (has-tail _ k times rest h))
  ]
]

length-remove-lt :
    (k : String) (m : Dict (List ℕ)) → has k m ≡ true → length (remove k m) < length m
unfolding remove get
length-remove-lt k [] h = absurd (ground (arith, h))
length-remove-lt k ((i, times) ∷ m) h =
    ground (arith, h, length-remove-lt k m, length-remove-le k m)

length-evict_oldest :
    (calls : Dict (List ℕ)) → 0 < length calls → length (evict_oldest calls) < length calls
unfolding evict_oldest
length-evict_oldest [] h = absurd (omega arith)
length-evict_oldest ((k, times) ∷ rest) h = elim (oldest_key-has k (last_call times) rest) [
  | inl e ↦ length-remove-lt _ ((k, times) ∷ rest) (rw e (unfold get in rw (eq_refl k) refl))
  | inr e ↦ length-remove-lt _ ((k, times) ∷ rest) (has-tail _ k times rest e)
]

length-make_room :
    (key : String) (calls : Dict (List ℕ))
    → length calls ≤ max_keys
    → length (make_room key calls) + (if has key (make_room key calls) then 0 else 1) ≤ max_keys
unfolding make_room
length-make_room key calls h = elim (Bool-cases (has key calls)) [
  | inl e ↦ ground (arith, e, h)
  | inr e ↦ elim (Bool-cases (leb max_keys (length calls))) [
    | inl full ↦ ground (arith, e, full, h, length-evict_oldest calls)
    | inr room ↦ ground (arith, e, room, h)
  ]
]

-- The limiter never tracks more keys than the cap.
pub length-is_allowed :
    (key : String) (now : ℕ) (l : Limiter)
    → length l.calls ≤ max_keys
    → length (is_allowed key now l).0.calls ≤ max_keys
unfolding is_allowed
length-is_allowed key now l h =
    let calls = make_room key l.calls in
    ground (
      arith,
      length-make_room key l.calls h,
      length-put key (admit l.max_calls l.window now (get_or key calls [])).0 calls,
    )

-- From the oldest to the latest.
unfoldable pub IsAscending : List ℕ → Type 0
IsAscending [] = Unit
IsAscending (t ∷ times) = All (λ u. t ≤ u) times × IsAscending times

abbrev active : ℕ → ℕ → List ℕ → List ℕ
active window now times = select (λ t. ltb now (t + window)) times

active_unchanged :
    (window now t : ℕ) (times : List ℕ)
    → now < t + window
    → All (λ u. t ≤ u) times
    → active window now times ≡ times
active_unchanged window now t [] lt h = refl
active_unchanged window now t (u ∷ times) lt h =
    ground (arith, h.0, active_unchanged window now t times lt h.1)

purge-IsAscending :
    (window now : ℕ) (times : List ℕ)
    → IsAscending times
    → purge window now times ≡ active window now times
unfolding purge IsAscending
purge-IsAscending window now [] h = refl
purge-IsAscending window now (t ∷ times) h = elim (Bool-cases (leb (t + window) now)) [
  | inl e ↦ ground (arith, e, purge-IsAscending window now times h.1)
  | inr e ↦ ground (arith, e, active_unchanged window now t times (ground (arith, e)) h.0)
]

active-twice :
    (window now : ℕ) (times : List ℕ)
    → active window now (active window now times) ≡ active window now times
active-twice window now [] = refl
active-twice window now (t ∷ times) = ground (arith, active-twice window now times)

own_kept :
    (key : String) (calls : Dict (List ℕ))
    → (not (has key calls) || has key (make_room key calls)) ≡ true
unfolding make_room
own_kept key calls = elim (Bool-cases (has key calls)) [
  | inl e ↦ ground (arith, e)
  | inr e ↦ ground (arith, e)
]

admit-active :
    (max_calls window now : ℕ) (times : List ℕ)
    → IsAscending times
    → 0 < window
    → let (times', allowed) = admit max_calls window now times in
      (ltb 0 (max_calls - length (active window now times)) ≡ allowed)
      × (max_calls - length (active window now times')
          ≡ max_calls - length (active window now times) - 1)
unfolding admit
admit-active max_calls window now times asc pos =
    let p : ℕ → Bool = λ t. ltb now (t + window) in
    rw (purge-IsAscending window now times asc)
      (elim (Bool-cases (leb max_calls (length (active window now times)))) [
        | inl e ↦ rw (e, active-twice window now times) (ground (arith, e), ground (arith, e))
        | inr e ↦
            rw
              (
                e,
                select-append p (active window now times) (now ∷ []),
                active-twice window now times,
              )
              (
                ground (arith, e),
                ground (
                  arith,
                  e,
                  pos,
                  length-append (active window now times) (active window now (now ∷ [])),
                ),
              )
      ])

-- While a key's times are from the oldest to the latest, `remaining` is positive exactly when the next
-- call at that time is allowed, and after that call it is one less, or still 0.
pub remaining-is_allowed :
    (key : String) (now : ℕ) (l : Limiter)
    → IsAscending (get_or key l.calls [])
    → 0 < l.window
    → let (l', allowed) = is_allowed key now l in
      (ltb 0 (remaining key now l) ≡ allowed) × (remaining key now l' ≡ remaining key now l - 1)
unfolding is_allowed remaining
remaining-is_allowed key now l asc pos =
    let calls = make_room key l.calls in
    rw
      (
        get_or-put_self key (admit l.max_calls l.window now (get_or key calls [])).0 [] calls,
        make_room-get_or key key l.calls (own_kept key l.calls),
      )
      (admit-active l.max_calls l.window now (get_or key l.calls []) asc pos)
