-- ===== src/PathOptimizer/Compress/Within.antt =====
-- The simplification ends, and what it drops lies within the tolerance.
use qwen.Prelude.{
  ℕ, zero, suc, ◌+◌, ◌-◌, ◌*◌, ◌≤◌, ◌<◌, ◌≡◌, ◌⊎◌, refl, subst, Bool, true, false, false≢true,
  Option, none, some, List, [], ◌∷◌, inl, inr, arith, ◌==◌, ltb, leb, if◌then◌else◌, length,
  beq_refl, Bool-cases,
}
use qwen.PathOptimizer.{Point}
use qwen.PathOptimizer.Compress.{
  mem, is_more, farthest, exceeds, compress_loop, kept, line_of, pick, compress,
}

abbrev at_most : ℕ → Option ℕ → Bool
at_most d none = false
at_most d (some m) = leb d m

most_before :
    (c x : ℕ) (best : Option ℕ)
    → at_most x best ≡ true
    → at_most x (if is_more c best then some c else best) ≡ true
most_before c x none h = absurd (false≢true h)
most_before c x (some m) h = ground arith

most_here : (c : ℕ) (best : Option ℕ) → at_most c (if is_more c best then some c else best) ≡ true
most_here c none = ground arith
most_here c (some m) = ground arith

at_most_within :
    (tolerance x : ℕ) (best : Option ℕ)
    → exceeds tolerance best ≡ false
    → at_most x best ≡ true
    → x ≤ tolerance
at_most_within tolerance x none h k = absurd (false≢true k)
at_most_within tolerance x (some m) h k = ground arith

module _ (d : ℕ → ℕ) where
  -- The farthest is as far as each point that was looked at.
  farthest-most :
      (count i j : ℕ) (best : Option ℕ) (idx : ℕ)
      → (at_most (d j) best ≡ true) ⊎ ((i ≤ j) × (j < i + count))
      → at_most (d j) (farthest d count i best idx).0 ≡ true
  unfolding farthest
  farthest-most zero i j best idx h = elim h [ inl e ↦ e | inr e ↦ absurd (omega arith) ]
  farthest-most (suc count) i j best idx h = farthest-most count (suc i) j _ _ (elim h [
    | inl e ↦ inl (most_before (d i) (d j) best e)
    | inr e ↦ elim (Bool-cases (i == j)) [
      | inl same ↦ inl (
          subst (λ (k : ℕ). at_most (d k) (if is_more (d i) best then some (d i) else best) ≡ true)
            (let k : i ≡ j = ground (arith, same) in k) (most_here (d i) best))
      | inr other ↦ inr (ground (arith, other), omega (arith, e.1))
    ]
  ])

  -- Its index stays between the ends.
  farthest-between :
      (count i s e : ℕ) (best : Option ℕ) (idx : ℕ)
      → s < idx
      → idx < e
      → s < i
      → i + count ≤ e
      → (s < (farthest d count i best idx).1) × ((farthest d count i best idx).1 < e)
  unfolding farthest
  farthest-between zero i s e best idx a b c h = (a, b)
  farthest-between (suc count) i s e best idx a b c h =
      farthest-between count (suc i) s e _ _ (ground arith) (ground arith) (omega arith)
        (omega arith)

-- The search between the ends of an interval that has points inside.
farthest-inside :
    (d : ℕ → ℕ) (s e : ℕ)
    → s + 1 < e
    → (s < (farthest d (e - s - 1) (s + 1) none s).1)
      × ((farthest d (e - s - 1) (s + 1) none s).1 < e)
unfolding farthest
farthest-inside d s e h =
    let count : e - s - 1 ≡ suc (e - s - 2) = omega arith in
    rw count (
      farthest-between d (e - s - 2) (suc (s + 1)) s e (some (d (s + 1))) (s + 1) (omega arith)
        (omega arith) (omega arith) (omega arith))

module _ (line : ℕ → ℕ → ℕ → ℕ) (tolerance : ℕ) (i : ℕ) where
  -- The point `i` is within the tolerance of the line of two points that are kept, one on each side.
  pub record IsNear (keep : List ℕ) : Type 0 where
    pub from : ℕ
    pub to : ℕ
    pub from_kept : mem from keep ≡ true
    pub to_kept : mem to keep ≡ true
    pub after : from < i
    pub before : i < to
    pub near : line from to i ≤ tolerance

  abbrev pub Settled : List ℕ → Type 0
  Settled keep = (mem i keep ≡ true) ⊎ IsNear keep

  -- The point lies inside an interval of the stack.
  abbrev IsStacked : List (ℕ × ℕ) → Type 0
  IsStacked [] = ⊥
  IsStacked ((s, e) ∷ stack) = ((s < i) × (i < e)) ⊎ IsStacked stack

  -- The ends of the intervals are in order, and kept.
  abbrev Fits : List ℕ → List (ℕ × ℕ) → Type 0
  Fits keep [] = Unit {0}
  Fits keep ((s, e) ∷ stack) = (s < e) × (mem s keep ≡ true) × (mem e keep ≡ true) × Fits keep stack

  weight : List (ℕ × ℕ) → ℕ
  weight [] = 0
  weight ((s, e) ∷ stack) = 2 * (e - s) - 1 + weight stack

  mem-more : (m j : ℕ) (keep : List ℕ) → mem j keep ≡ true → mem j (m ∷ keep) ≡ true
  unfolding mem
  mem-more m j keep h = ground (arith, h)

  mem-here : (m : ℕ) (keep : List ℕ) → mem m (m ∷ keep) ≡ true
  unfolding mem
  mem-here m keep = rw (beq_refl m) refl

  Settled-more : (m : ℕ) (keep : List ℕ) → Settled keep → Settled (m ∷ keep)
  Settled-more m keep (inl h) = inl (mem-more m i keep h)
  Settled-more m keep (inr h) = inr (record {
    from = h.from;
    to = h.to;
    from_kept = mem-more m h.from keep h.from_kept;
    to_kept = mem-more m h.to keep h.to_kept;
    after = h.after;
    before = h.before;
    near = h.near;
  })

  Fits-more :
      (m : ℕ) (keep : List ℕ) (stack : List (ℕ × ℕ)) → Fits keep stack → Fits (m ∷ keep) stack
  Fits-more m keep [] h = tt
  Fits-more m keep ((s, e) ∷ stack) h =
      (h.0, mem-more m s keep h.1, mem-more m e keep h.2, Fits-more m keep stack h.3)

  -- An interval is split at a point inside it.
  split_at :
      (s m e : ℕ) (keep : List ℕ) (stack : List (ℕ × ℕ))
      → IsStacked ((s, e) ∷ stack) ⊎ Settled keep
      → IsStacked ((m, e) ∷ (s, m) ∷ stack) ⊎ Settled (m ∷ keep)
  split_at s m e keep stack (inl (inl h)) = elim (Bool-cases (ltb m i)) [
    | inl right ↦ inl (inl (ground (arith, right), h.1))
    | inr other ↦ elim (Bool-cases (m == i)) [
      | inl here ↦
          let same : m ≡ i = ground (arith, here) in
          inr (inl (subst (λ (k : ℕ). mem k (m ∷ keep) ≡ true) same (mem-here m keep)))
      | inr off ↦ inl (inr (inl (h.0, ground (arith, other, off))))
    ]
  ]
  split_at s m e keep stack (inl (inr h)) = inl (inr (inr h))
  split_at s m e keep stack (inr h) = inr (Settled-more m keep h)

  -- An interval is left whose points are all within the tolerance.
  leave :
      (s e : ℕ) (keep : List ℕ) (stack : List (ℕ × ℕ))
      → Fits keep ((s, e) ∷ stack)
      → ((s < i) → (i < e) → line s e i ≤ tolerance)
      → IsStacked ((s, e) ∷ stack) ⊎ Settled keep
      → IsStacked stack ⊎ Settled keep
  leave s e keep stack fits all (inl (inl h)) = inr (
      inr (record {
        from = s;
        to = e;
        from_kept = fits.1;
        to_kept = fits.2;
        after = h.0;
        before = h.1;
        near = all h.0 h.1;
      }))
  leave s e keep stack fits all (inl (inr h)) = inl h
  leave s e keep stack fits all (inr h) = inr h

  within_lem :
      (s e : ℕ)
      → exceeds tolerance (farthest (line s e) (e - s - 1) (s + 1) none s).0 ≡ false
      → s < i
      → i < e
      → line s e i ≤ tolerance
  within_lem s e h a b =
      let most =
        farthest-most (line s e) (e - s - 1) (s + 1) i none s (inr (omega arith, omega arith)) in
      at_most_within tolerance (line s e i) _ h most

  compress_settles :
      (fuel : ℕ) (stack : List (ℕ × ℕ)) (keep : List ℕ)
      → weight stack < fuel
      → Fits keep stack
      → IsStacked stack ⊎ Settled keep
      → (result : List ℕ) × (compress_loop line tolerance fuel stack keep ≡ some result)
        × Settled result
  unfolding compress_loop weight
  compress_settles zero stack keep lt fits h = absurd (omega arith)
  compress_settles (suc fuel) [] keep lt fits h =
      (keep, refl, elim h [ inl e ↦ absurd e | inr e ↦ e ])
  compress_settles (suc fuel) ((s, e) ∷ stack) keep lt fits h =
      let (best, m) = farthest (line s e) (e - s - 1) (s + 1) none s in
      elim (Bool-cases (leb e (s + 1))) [
        | inl short ↦
            let adjacent : e ≤ s + 1 = ground (arith, short) in
            let (result, ends, settled) =
              compress_settles fuel stack keep (omega (arith, fits.0)) fits.3
                (leave s e keep stack fits (λ a b. absurd (omega (arith, a, b, adjacent))) h) in
            (result, rw short ends, settled)
        | inr long ↦
            let apart : s + 1 < e = ground (arith, long) in
            elim (Bool-cases (exceeds tolerance best)) [
              | inl far ↦
                  let (after, before) = farthest-inside (line s e) s e apart in
                  let (result, ends, settled) =
                    compress_settles fuel ((m, e) ∷ (s, m) ∷ stack) (m ∷ keep)
                      (omega (arith, after, before))
                      (
                        before,
                        mem-here m keep,
                        mem-more m e keep fits.2,
                        (
                          after,
                          mem-more m s keep fits.1,
                          mem-here m keep,
                          Fits-more m keep stack fits.3,
                        ),
                      )
                      (split_at s m e keep stack h) in
                  (result, rw (long, far) ends, settled)
              | inr close ↦
                  let (result, ends, settled) =
                    compress_settles fuel stack keep (omega (arith, fits.0)) fits.3
                      (leave s e keep stack fits (within_lem s e close) h) in
                  (result, rw (long, close) ends, settled)
            ]
      ]

module _ {A : Type 0} (to_line : A → A → A → ℕ) (tolerance : ℕ) where
  -- The simplification of a path of more than two points ends, and its result is the path's points with
  -- the indices of a set: each index of the path is in the set, or its point is within the tolerance of
  -- the line of two points of the set, one before and one after it.
  pub compress_within :
      (p : Point A) (ps : List (Point A)) (i : ℕ)
      → 1 < length ps
      → i ≤ length ps
      → (keep : List ℕ) × (compress to_line tolerance (p ∷ ps) ≡ some (pick 0 keep (p ∷ ps)))
        × ((mem i keep ≡ true) ⊎ IsNear (line_of to_line p ps) tolerance i keep)
  unfolding compress kept weight mem
  compress_within p ps i many h =
      let end = length ps in
      let (keep, ends, settled) =
        compress_settles (line_of to_line p ps) tolerance i (2 * end + 1) ((0, end) ∷ [])
          (0 ∷ end ∷ []) (omega arith) (omega arith, refl, ground (arith, beq_refl end), tt)
          (elim (Bool-cases (ltb 0 i)) [
            | inr first ↦ inr (inl (ground (arith, first)))
            | inl after ↦ elim (Bool-cases (ltb i end)) [
              | inl before ↦ inl (inl (ground (arith, after), ground (arith, before)))
              | inr last ↦ inr (inl (ground (arith, last)))
            ]
          ]) in
      let big : leb (length ps) 1 ≡ false = ground arith in
      (keep, rw (compress, big, ends) refl, settled)
