-- ===== src/RateLimit/Granted.antt =====
-- The bound that the limiter keeps over a sequence of calls of any keys.
use qwen.Prelude.{
  ℕ, suc, ◌≤◌, ◌≡◌, refl, sym, ap, subst, subst₂, inl, inr, ◌⊎◌, some, ◌≤◌, String, Bool, true,
  false, ◌&&◌, List, [], ◌∷◌, ◌++◌, arith, ltb, leb, if◌then◌else◌, str_eq, eq_iff, eq_refl, not,
  ◌||◌, length, All-imp, Bool-cases,
}
use mathlib.Core.List.{append_assoc, append-nil}
use qwen.Prelude.Dict.{Dict, get, remove, get_or, has, get-remove, get_or-put, get_or-put_self}
use qwen.RateLimit.{
  Limiter, admit, max_keys, make_room, evict_oldest, oldest_key, last_call, is_allowed, init,
}
use qwen.RateLimit.Window.{within, IsWindow, admit-IsWindow}

-- The times, in order, at which the calls of `key` are allowed in a sequence of calls of any keys.
unfoldable pub granted : String → List (String × ℕ) → Limiter → List ℕ
granted key [] l = []
granted key ((k, now) ∷ calls) l =
    let (l', allowed) = is_allowed k now l in
    (if str_eq k key && allowed then now ∷ [] else []) ++ granted key calls l'

-- The clock does not go back.
unfoldable pub IsOrdered : ℕ → List (String × ℕ) → Type 0
IsOrdered last [] = Unit
IsOrdered last ((k, now) ∷ calls) = (last ≤ now) × IsOrdered now calls

-- The cap on the keys never drops `key` in the sequence.
unfoldable pub is_kept : String → List (String × ℕ) → Limiter → Bool
is_kept key [] l = true
is_kept key ((k, now) ∷ calls) l =
    (not (has key l.calls) || has key (make_room k l.calls))
    && is_kept key calls (is_allowed k now l).0

make_room-cases :
    (k : String) (calls : Dict (List ℕ))
    → (make_room k calls ≡ calls) ⊎ ((j : String) × (make_room k calls ≡ remove j calls))
unfolding make_room evict_oldest get
make_room-cases k [] = inl refl
make_room-cases k ((i, times) ∷ rest) =
    elim (has k ((i, times) ∷ rest))
      as (λ b.
        ((if b
            then (i, times) ∷ rest
            else if leb max_keys (suc (length rest))
            then evict_oldest ((i, times) ∷ rest)
            else (i, times) ∷ rest)
          ≡ (i, times) ∷ rest)
        ⊎ ((j : String) × ((if b
                then (i, times) ∷ rest
                else if leb max_keys (suc (length rest))
                then evict_oldest ((i, times) ∷ rest)
                else (i, times) ∷ rest)
              ≡ remove j ((i, times) ∷ rest)))) [
                | true ↦ inl refl
                | false ↦ elim (Bool-cases (leb max_keys (suc (length rest)))) [
                  | inl e ↦ inr (oldest_key i (last_call times) rest, rw e refl)
                  | inr e ↦ inl (rw e refl)
                ]
              ]

pub make_room-get_or :
    (k key : String) (calls : Dict (List ℕ))
    → (not (has key calls) || has key (make_room k calls)) ≡ true
    → get_or key (make_room k calls) [] ≡ get_or key calls []
make_room-get_or k key calls h = elim (make_room-cases k calls) [
  | inl e ↦ rw e refl
  | inr (j, e) ↦ ground (arith, e, h, get-remove j key calls)
]

IsWindow-later :
    {max_calls window last now : ℕ} {times granted : List ℕ}
    → IsWindow max_calls window last times granted
    → last ≤ now
    → IsWindow max_calls window now times granted
IsWindow-later w le = record {
  old = w.old;
  split = w.split;
  aged = All-imp w.old (λ t h. omega arith) w.aged;
  fits = w.fits;
  bounded = w.bounded;
}

-- The times allowed before, and the time of one call of `k` if it is of `key` and allowed.
abbrev extended : String → String → ℕ → Limiter → List ℕ → List ℕ
extended key k now l past =
    past ++ (if str_eq k key && (is_allowed k now l).1 then now ∷ [] else [])

module _ (key : String) (last now : ℕ) (past : List ℕ) (l : Limiter)
    (w : IsWindow l.max_calls l.window last (get_or key l.calls []) past) (le : last ≤ now) where
  -- A call of the key itself.
  is_allowed-IsWindow_self :
      (not (has key l.calls) || has key (make_room key l.calls)) ≡ true
      → IsWindow l.max_calls l.window now
          (get_or key (is_allowed key now l).0.calls [])
          (extended key key now l past)
  unfolding is_allowed
  is_allowed-IsWindow_self h =
      let calls = make_room key l.calls in
      rw
        (
          get_or-put_self key (admit l.max_calls l.window now (get_or key calls [])).0 [] calls,
          eq_refl key,
          make_room-get_or key key l.calls h,
        )
        (admit-IsWindow l.max_calls l.window last now (get_or key l.calls []) past w le)

  -- A call of another key.
  is_allowed-IsWindow_other :
      (k : String)
      → str_eq k key ≡ false
      → (not (has key l.calls) || has key (make_room k l.calls)) ≡ true
      → IsWindow l.max_calls l.window now
          (get_or key (is_allowed k now l).0.calls [])
          (extended key k now l past)
  unfolding is_allowed
  is_allowed-IsWindow_other k e h =
      let calls = make_room k l.calls in
      rw
        (
          get_or-put k key (admit l.max_calls l.window now (get_or k calls [])).0 [] calls,
          e,
          make_room-get_or k key l.calls h,
          append-nil past,
        )
        (IsWindow-later w le)

  is_allowed-IsWindow :
      (k : String)
      → (not (has key l.calls) || has key (make_room k l.calls)) ≡ true
      → IsWindow l.max_calls l.window now
          (get_or key (is_allowed k now l).0.calls [])
          (extended key k now l past)
  is_allowed-IsWindow k h = elim (Bool-cases (str_eq k key)) [
    | inl e ↦
        subst
          (λ x.
            (not (has key l.calls) || has key (make_room x l.calls)) ≡ true
            → IsWindow l.max_calls l.window now (get_or key (is_allowed x now l).0.calls [])
                (extended key x now l past))
          (sym ((eq_iff k key).0 e)) is_allowed-IsWindow_self h
    | inr e ↦ is_allowed-IsWindow_other k e h
  ]

granted-bounded :
    (key : String) (last from : ℕ) (past : List ℕ) (calls : List (String × ℕ)) (l : Limiter)
    → IsWindow l.max_calls l.window last (get_or key l.calls []) past
    → IsOrdered last calls
    → is_kept key calls l ≡ true
    → length (within l.window from (past ++ granted key calls l)) ≤ l.max_calls
unfolding granted IsOrdered is_kept is_allowed
granted-bounded key last from past [] l w ordered kept = rw (append-nil past) (w.bounded from)
granted-bounded key last from past ((k, now) ∷ calls) l w ordered kept =
    let (h, kept') : ((not (has key l.calls) || has key (make_room k l.calls)) ≡ true)
        × (is_kept key calls (is_allowed k now l).0 ≡ true) =
      (ground (arith, kept), ground (arith, kept)) in
    rw
      (sym (
        append_assoc past (if str_eq k key && (is_allowed k now l).1 then now ∷ [] else [])
          (granted key calls (is_allowed k now l).0)))
      (granted-bounded key now from (extended key k now l past) calls (is_allowed k now l).0
        (is_allowed-IsWindow key last now past l w ordered.0 k h) ordered.1 kept')

init_lem :
    (max_calls window : ℕ) (l : Limiter)
    → init max_calls window ≡ some l
    → (l ≡ record { max_calls = max_calls; window = window; calls = [] })
unfolding init
init_lem max_calls window l made = elim (Bool-cases (ltb max_calls 1)) [
  | inl e ↦ ground (arith, e, made)
  | inr e ↦ ground (arith, e, made)
]

-- However calls of any keys follow each other, from an empty limiter and with a clock that does not go
-- back, at most `max_calls` calls of a key are allowed within any stretch of the window's length,
-- unless the cap on the keys drops the key in between.
pub granted_bounded :
    (key : String) (from max_calls window : ℕ) (calls : List (String × ℕ)) (l : Limiter)
    → init max_calls window ≡ some l
    → IsOrdered 0 calls
    → is_kept key calls l ≡ true
    → length (within window from (granted key calls l)) ≤ max_calls
granted_bounded key from max_calls window calls l made ordered kept =
    let e = init_lem max_calls window l made in
    let w : IsWindow l.max_calls l.window 0 (get_or key l.calls []) [] = rw e (
      unfold get in
      record {
        old = [];
        split = refl;
        aged = tt;
        fits = omega arith;
        bounded = λ f. omega arith;
      }) in
    subst₂ (λ m v. length (within v from (granted key calls l)) ≤ m) (ap (λ x. x.max_calls) e)
      (ap (λ x. x.window) e) (granted-bounded key 0 from [] calls l w ordered kept)
