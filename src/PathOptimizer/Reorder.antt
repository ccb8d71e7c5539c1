-- ===== src/PathOptimizer/Reorder.antt =====
-- The greedy order takes every segment once.
use qwen.Prelude.{
  ℕ, zero, suc, ◌+◌, ◌≤◌, ◌<◌, ◌≡◌, ◌⊎◌, refl, sym, ap, ◌∙◌, Bool, true, false, ◌&&◌, not,
  false≢true, none, some, List, [], ◌∷◌, inl, inr, arith, ◌==◌, if◌then◌else◌, length, is_some,
  Bool-cases, Option-cases,
}
use qwen.PathOptimizer.{
  Cost, finite, infinite, not_a_number, lt, Segment, reverse_segment, last_of, Best, is_less,
  better, find_best, segment_at, visit, oriented, unvisited, index_of, is_reversed, choose,
  reorder_segments_greedy,
}

abbrev pub is_finite : Cost → Bool
is_finite (finite n) = true
is_finite _ = false

module _ {A : Type 0} where
  unfoldable pub total : (Segment A → ℕ) → List (Segment A) → ℕ
  total w [] = 0
  total w (s ∷ ss) = w s + total w ss

  -- The weight of the segments that are not yet chosen.
  left : (Segment A → ℕ) → List (Segment A × Bool) → ℕ
  left w [] = 0
  left w ((s, visited) ∷ items) = (if visited then 0 else w s) + left w items

  -- The segment with this index is there and not yet chosen.
  is_open : ℕ → ℕ → List (Segment A × Bool) → Bool
  is_open i j [] = false
  is_open i j ((s, visited) ∷ items) = if i == j then not visited else is_open (suc i) j items

  is_open-le : (i j : ℕ) (items : List (Segment A × Bool)) → is_open i j items ≡ true → i ≤ j
  unfolding is_open
  is_open-le i j [] h = absurd (false≢true h)
  is_open-le i j ((s, visited) ∷ items) h = ground (arith, is_open-le (suc i) j items)

  -- A visit takes the weight of one segment away.
  left-visit :
      (w : Segment A → ℕ) (i j : ℕ) (items : List (Segment A × Bool))
      → is_open i j items ≡ true
      → (s : Segment A) × (segment_at i j items ≡ some s)
        × (left w items ≡ w s + left w (visit i j items))
  unfolding is_open left segment_at visit
  left-visit w i j [] h = absurd (false≢true h)
  left-visit w i j ((s, visited) ∷ items) h = elim (Bool-cases (i == j)) [
    | inl e ↦ (s, ground (arith, e), ground (arith, e))
    | inr e ↦
        let (t, found, weight) = left-visit w (suc i) j items (ground (arith, e)) in
        (t, ground (arith, e, found), ground (arith, e, weight))
  ]

module _ {A : Type 0} (dist : A → A → Cost) (here : A) where
  better-index :
      (i : ℕ) (s : Segment A) (best : Best) (c : Cost) (j : ℕ) (r : Bool)
      → better dist here i s best ≡ some (c, j, r)
      → (best ≡ some (c, j, r)) ⊎ (i ≡ j)
  better-index i s best c j r h =
      let normal = dist here s.0.place in
      let reversed = dist here (last_of s).place in
      elim (Bool-cases (lt reversed normal && is_less reversed best)) [
        | inl e ↦ inr (ground (arith, e))
        | inr e ↦ elim (Bool-cases (is_less normal best)) [
          | inl f ↦ inr (ground (arith, e, f))
          | inr f ↦ inl (ground (arith, e, f))
        ]
      ]

  -- What was found is the best of before, or a segment of the list that is not yet chosen.
  find_best-open :
      (i : ℕ) (items : List (Segment A × Bool)) (best : Best) (c : Cost) (j : ℕ) (r : Bool)
      → find_best dist here i items best ≡ some (c, j, r)
      → (best ≡ some (c, j, r)) ⊎ (is_open i j items ≡ true)
  unfolding find_best is_open
  find_best-open i [] best c j r h = inl h
  find_best-open i ((s, true) ∷ items) best c j r h =
      elim (find_best-open (suc i) items best c j r h) [
        | inl e ↦ inl e
        | inr e ↦ inr (ground (arith, is_open-le (suc i) j items e, e))
      ]
  find_best-open i ((s, false) ∷ items) best c j r h =
      elim (find_best-open (suc i) items (better dist here i s best) c j r h) [
        | inl e ↦ elim (better-index i s best c j r e) [
          | inl f ↦ inl f
          | inr f ↦ inr (ground (arith, f))
        ]
        | inr e ↦ inr (ground (arith, is_open-le (suc i) j items e, e))
      ]

less_none : (c : Cost) → is_finite c ≡ true → is_less c none ≡ true
less_none (finite n) h = refl
less_none infinite h = cc
less_none not_a_number h = cc

module _ {A : Type 0} (dist : A → A → Cost) (finite_dist : (a b : A) → is_finite (dist a b) ≡ true)
    (here : A) where
  better-some : (i : ℕ) (s : Segment A) (best : Best) → is_some (better dist here i s best) ≡ true
  better-some i s none = ground (arith, less_none _ (finite_dist here s.0.place))
  better-some i s (some b) = ground arith

  -- Where a segment is left, or a best one is known, there is a best one.
  find_best-some :
      (i : ℕ) (items : List (Segment A × Bool)) (best : Best)
      → (is_some best ≡ true) ⊎ (0 < left (λ s. 1) items)
      → is_some (find_best dist here i items best) ≡ true
  unfolding find_best left
  find_best-some i [] best h = elim h [ inl e ↦ e | inr e ↦ absurd (omega arith) ]
  find_best-some i ((s, true) ∷ items) best h =
      find_best-some (suc i) items best (elim h [ inl e ↦ inl e | inr e ↦ inr (omega arith) ])
  find_best-some i ((s, false) ∷ items) best h =
      find_best-some (suc i) items (better dist here i s best) (inl (better-some i s best))

length-left :
    {A : Type 0} (s : Segment A) (ss : List (Segment A))
    → left (λ t. 1) ((s, true) ∷ unvisited ss) ≡ length ss
unfolding left
length-left s [] = omega arith
length-left s (t ∷ ss) = omega (arith, length-left s ss)

module _ {A : Type 0} (dist : A → A → Cost) (w : Segment A → ℕ) where
  left-none : (items : List (Segment A × Bool)) → left (λ s. 1) items ≡ 0 → left w items ≡ 0
  unfolding left
  left-none [] h = refl
  left-none ((s, true) ∷ items) h = omega (arith, left-none items (omega (arith, h)))
  left-none ((s, false) ∷ items) h = absurd (omega arith)

  left-unvisited : (ss : List (Segment A)) → left w (unvisited ss) ≡ total w ss
  unfolding left total
  left-unvisited [] = refl
  left-unvisited (s ∷ ss) = ap (λ n. w s + n) (left-unvisited ss)

  left-visited :
      (s : Segment A) (ss : List (Segment A)) → left w ((s, true) ∷ unvisited ss) ≡ total w ss
  unfolding left
  left-visited s ss = omega (arith, left-unvisited ss)

  module _ (finite_dist : (a b : A) → is_finite (dist a b) ≡ true)
      (symmetric : (s : Segment A) → w (reverse_segment s) ≡ w s) where
    oriented-weight : (r : Bool) (s : Segment A) → w (oriented r s) ≡ w s
    oriented-weight true s = symmetric s
    oriented-weight false s = refl

    choose-step :
        (missing : ℕ) (here : A) (items : List (Segment A × Bool)) (c : Cost) (j : ℕ) (r : Bool)
        (s : Segment A) (ss : List (Segment A))
        → find_best dist here 0 items none ≡ some (c, j, r)
        → segment_at 0 j items ≡ some s
        → choose dist missing (last_of (oriented r s)).place (visit 0 j items) ≡ some ss
        → choose dist (suc missing) here items ≡ some (oriented r s ∷ ss)
    unfolding choose
    choose-step missing here items c j r s ss e found chosen =
        ap
          (λ (best : Best). elim (segment_at 0 (index_of best (length items)) items) [
            | none ↦ none
            | some t ↦
                elim (choose dist missing (last_of (oriented (is_reversed best) t)).place
                  (visit 0 (index_of best (length items)) items)) [
                    | none ↦ none
                    | some ts ↦ some (oriented (is_reversed best) t ∷ ts)
                  ]
          ])
          e
        ∙ rw (found, chosen) refl

    -- Choosing as many segments as are left chooses each of them once.
    choose-total :
        (missing : ℕ) (here : A) (items : List (Segment A × Bool))
        → left (λ s. 1) items ≡ missing
        → (ss : List (Segment A)) × (choose dist missing here items ≡ some ss)
          × (total w ss ≡ left w items)
    unfolding choose total
    choose-total zero here items h = ([], refl, sym (left-none items h))
    choose-total (suc missing) here items h =
        let best = find_best dist here 0 items none in
        let known = find_best-some dist finite_dist here 0 items none (inr (omega (arith, h))) in
        elim (Option-cases best) [
          | inl e ↦ absurd (false≢true (sym (ap is_some e) ∙ known))
          | inr ((c, j, r), e) ↦
              let is_left : is_open 0 j items ≡ true =
                elim (find_best-open dist here 0 items none c j r e) [
                  | inl f ↦ absurd (let g : none ≡ some (c, j, r) = f in cc)
                  | inr f ↦ f
                ] in
              let (s, found, weight) = left-visit w 0 j items is_left in
              let count = (left-visit (λ s. 1) 0 j items is_left).2 in
              let (ss, chosen, rest) =
                choose-total missing (last_of (oriented r s)).place (visit 0 j items)
                  (omega (arith, h, count)) in
              (
                oriented r s ∷ ss,
                choose-step missing here items c j r s ss e found chosen,
                omega (arith, weight, rest, oriented-weight r s),
              )
        ]

    -- Where all distances are finite, the reordering ends, and its result has each segment exactly once, as it is or reversed: every
    -- weight of segments that a reversal does not change sums to what it was.
    pub reorder_total :
        (segments : List (Segment A))
        → (ordered : List (Segment A)) × (reorder_segments_greedy dist segments ≡ some ordered)
          × (total w ordered ≡ total w segments)
    unfolding reorder_segments_greedy total
    reorder_total [] = ([], refl, refl)
    reorder_total (s ∷ ss) =
        let (rest, chosen, weight) =
          choose-total (length ss) (last_of s).place ((s, true) ∷ unvisited ss)
            (length-left s ss) in
        (
          s ∷ rest,
          rw (reorder_segments_greedy, chosen) refl,
          ap (λ n. w s + n) (weight ∙ omega (arith, left-visited s ss)),
        )
