-- ===== src/RateLimit/Window.antt =====
-- What the sliding window knows of one key's calls.
use qwen.Prelude.{
  ℕ, ◌+◌, ◌≤◌, ◌≡◌, refl, sym, ap, subst, inl, inr, ◌≤◌, Bool, false, ◌&&◌, List, [], ◌∷◌, ◌++◌,
  arith, ltb, leb, if◌then◌else◌, length, select, All, All-append, All-imp, length-append,
  select-append, length-select-le, ◌<◌, ◌∙◌, Bool-cases,
}
use mathlib.Core.List.{append_assoc, append-nil}
use qwen.RateLimit.{purge, admit}

-- The times that lie in the window after `from`.
abbrev pub within : ℕ → ℕ → List ℕ → List ℕ
within window from times = select (λ t. ltb from t && leb t (from + window)) times

-- The times that `purge` drops.
outdated : ℕ → ℕ → List ℕ → List ℕ
outdated window now [] = []
outdated window now (t ∷ times) = if leb (t + window) now then t ∷ outdated window now times else []

outdated-append-purge :
    (window now : ℕ) (times : List ℕ) → outdated window now times ++ purge window now times ≡ times
unfolding outdated purge
outdated-append-purge window now [] = refl
outdated-append-purge window now (t ∷ times) =
    ground (arith, outdated-append-purge window now times)

length-purge-le : (window now : ℕ) (times : List ℕ) → length (purge window now times) ≤ length times
unfolding purge
length-purge-le window now [] = omega arith
length-purge-le window now (t ∷ times) = ground (arith, length-purge-le window now times)

outdated-All :
    (window now : ℕ) (times : List ℕ) → All (λ t. t + window ≤ now) (outdated window now times)
unfolding outdated
outdated-All window now [] = tt
outdated-All window now (t ∷ times) = elim (Bool-cases (leb (t + window) now)) [
  | inl e ↦ rw e (ground arith, outdated-All window now times)
  | inr e ↦ rw e tt
]

-- What is known of a key's deque when `granted` are the times of all its calls that were allowed.
pub record IsWindow (max_calls window now : ℕ) (times granted : List ℕ) : Type 0 where
  pub old : List ℕ
  pub split : granted ≡ old ++ times
  pub aged : All (λ t. t + window ≤ now) old
  pub fits : length times ≤ max_calls
  pub bounded : (from : ℕ) → length (within window from granted) ≤ max_calls

old-within :
    (window from now : ℕ) (old : List ℕ)
    → from < now
    → now ≤ from + window
    → All (λ t. t + window ≤ now) old
    → within window from old ≡ []
old-within window from now [] lo hi h = refl
old-within window from now (t ∷ old) lo hi h =
    ground (arith, h.0, old-within window from now old lo hi h.1)

within-out :
    (window from now : ℕ) (times : List ℕ)
    → (ltb from now && leb now (from + window)) ≡ false
    → within window from (times ++ now ∷ []) ≡ within window from times
within-out window from now [] h = ground (arith, h)
within-out window from now (t ∷ times) h = ground (arith, within-out window from now times h)

-- A call is let in at a time when the calls older than the window cannot be in a window with it.
bounded-snoc :
    (max_calls window now from : ℕ) (old kept : List ℕ)
    → All (λ t. t + window ≤ now) old
    → length kept < max_calls
    → length (within window from (old ++ kept)) ≤ max_calls
    → length (within window from (old ++ (kept ++ now ∷ []))) ≤ max_calls
bounded-snoc max_calls window now from old kept aged room h =
    elim (Bool-cases (ltb from now && leb now (from + window))) [
      | inl e ↦
          let (lo, hi) : (from < now) × (now ≤ from + window) =
            (ground (arith, e), ground (arith, e)) in
          let p : ℕ → Bool = λ t. ltb from t && leb t (from + window) in
          rw (select-append p old (kept ++ now ∷ []), old-within window from now old lo hi aged)
            (omega (arith, length-select-le p (kept ++ now ∷ []), length-append kept (now ∷ [])))
      | inr e ↦
          rw (sym (append_assoc old kept (now ∷ [])), within-out window from now (old ++ kept) e) h
    ]

pub admit-IsWindow :
    (max_calls window last now : ℕ) (times granted : List ℕ)
    → IsWindow max_calls window last times granted
    → last ≤ now
    → let (times', allowed) = admit max_calls window now times in
      IsWindow max_calls window now times' (granted ++ (if allowed then now ∷ [] else []))
unfolding admit
admit-IsWindow max_calls window last now times granted w le =
    let kept = purge window now times in
    let gone = w.old ++ outdated window now times in
    let aged =
      All-append (λ t. t + window ≤ now) w.old (outdated window now times)
        (All-imp w.old (λ t h. omega arith) w.aged) (outdated-All window now times) in
    let split =
      w.split
      ∙ ap (λ x. w.old ++ x) (sym (outdated-append-purge window now times))
      ∙ sym (append_assoc w.old (outdated window now times) kept) in
    elim (Bool-cases (leb max_calls (length kept))) [
      | inl e ↦
          rw (e, append-nil granted)
            (record {
              old = gone;
              split = split;
              aged = aged;
              fits = omega (arith, length-purge-le window now times, w.fits);
              bounded = w.bounded;
            })
      | inr e ↦ rw e (record {
        old = gone;
        split = ap (λ x. x ++ now ∷ []) split ∙ append_assoc gone kept (now ∷ []);
        aged = aged;
        fits = ground (arith, length-append kept (now ∷ []), e);
        bounded = λ from.
            subst (λ x. length (within window from x) ≤ max_calls)
              (sym (ap (λ x. x ++ now ∷ []) split ∙ append_assoc gone kept (now ∷ [])))
              (bounded-snoc max_calls window now from gone kept aged (ground (arith, e))
                (subst (λ x. length (within window from x) ≤ max_calls) split (w.bounded from)));
      })
    ]
