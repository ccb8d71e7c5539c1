-- ===== src/Redis/Processing/Recover.antt =====
-- `recover_stale_processing` of the Redis store loses no item.
use qwen.Prelude.{
  ℕ, ◌+◌, ◌≤◌, ◌<◌, ◌≡◌, refl, sym, ap, subst, ◌∙◌, String, Bool, true, false, ◌||◌, not,
  false≢true, Option, none, some, List, [], ◌∷◌, ◌⊎◌, inl, inr, arith, ◌==◌, if◌then◌else◌, eq_iff,
  eq_refl, beq_refl, length, ltb, Bool-cases, is_some,
}
use qwen.Redis.{
  Task, Item, item, corrupt, Key, pending, processing, item_eq, occurs, remove_all, Server, gen_eq,
}
use qwen.Redis.Cas.Changes.{lrange-cas_update}
use qwen.Redis.Processing.{
  is_late, recovered, requeue_item_atomic, mark_recovered, recover_item, recover_items,
  recover_stale_processing,
}

gen_eq_sound : (a b : Option ℕ) → gen_eq a b ≡ true → a ≡ b
gen_eq_sound none none h = refl
gen_eq_sound none (some b) h = absurd (false≢true h)
gen_eq_sound (some a) none h = absurd (false≢true h)
gen_eq_sound (some a) (some b) h = ground arith

item_eq_sound : (x y : Item) → item_eq x y ≡ true → x ≡ y
unfolding item_eq
item_eq_sound (item t) (item u) h = ground (
  arith,
  eq_iff t.task_id u.task_id,
  eq_iff t.device_id u.device_id,
  eq_iff t.capability u.capability,
  eq_iff t.source u.source,
  gen_eq_sound t.dispatch_gen u.dispatch_gen,
)
item_eq_sound (item t) (corrupt b) h = absurd (false≢true h)
item_eq_sound (corrupt a) (item u) h = absurd (false≢true h)
item_eq_sound (corrupt a) (corrupt b) h = ap corrupt ((eq_iff a b).0 h)

gen_eq_refl : (a : Option ℕ) → gen_eq a a ≡ true
gen_eq_refl none = refl
gen_eq_refl (some a) = beq_refl a

item_eq_refl : (x : Item) → item_eq x x ≡ true
unfolding item_eq
item_eq_refl (item t) =
    rw
      (
        eq_refl t.task_id,
        eq_refl t.device_id,
        eq_refl t.capability,
        eq_refl t.source,
        beq_refl t.params,
        beq_refl t.enqueued_at,
        beq_refl t.processing_at,
        gen_eq_refl t.dispatch_gen,
      )
      refl
item_eq_refl (corrupt a) = eq_refl a

remove_all-le : (x : Item) (ys : List Item) → length (remove_all x ys) ≤ length ys
unfolding remove_all
remove_all-le x [] = omega arith
remove_all-le x (y ∷ ys) = ground (arith, remove_all-le x ys)

remove_all-lt :
    (x : Item) (ys : List Item) → occurs x ys ≡ true → length (remove_all x ys) < length ys
unfolding remove_all occurs
remove_all-lt x [] h = absurd (false≢true h)
remove_all-lt x (y ∷ ys) h = ground (arith, remove_all-le x ys, remove_all-lt x ys)

-- An item that is taken out of a list is the one to be taken out, or it is still there.
occurs-remove_all :
    (x y : Item) (ys : List Item)
    → occurs y ys ≡ true
    → (x ≡ y) ⊎ (occurs y (remove_all x ys) ≡ true)
unfolding remove_all occurs
occurs-remove_all x y [] h = absurd (false≢true h)
occurs-remove_all x y (z ∷ ys) h =
    let rest : item_eq z y ≡ false → (x ≡ y) ⊎ (occurs y (remove_all x ys) ≡ true) =
      λ other. occurs-remove_all x y ys (ground arith) in
    elim (Bool-cases (item_eq z y)) [
      | inl same ↦ elim (Bool-cases (item_eq z x)) [
        | inl e ↦ inl (sym (item_eq_sound z x e) ∙ item_eq_sound z y same)
        | inr e ↦ inr (rw (e, same) refl)
      ]
      | inr other ↦ elim (rest other) [
        | inl e ↦ inl e
        | inr k ↦ inr (elim (Bool-cases (item_eq z x)) [ inl e ↦ rw e k | inr e ↦ rw (e, other) k ])
      ]
    ]

module _ (r : Server) (d : String) where
  open r use {State, hget, lrange, lpush, lrem_all, lrange-lpush, lrange-lrem_all, removed-lrem_all}

  -- The item is in the queue of the device or in its processing list.
  abbrev held : Item → State → Bool
  held y s = occurs y (lrange (pending d) s) || occurs y (lrange (processing d) s)

  -- What a step of the sweep does to the lists and to the count: the queue grows by what is counted.
  record IsKept (a b : State × ℕ) : Type 0 where
    grown : length (lrange (pending d) b.0) + a.1 ≡ length (lrange (pending d) a.0) + b.1
    kept : (y : Item) → held y a.0 ≡ true → held y b.0 ≡ true

  IsKept-refl : (a : State × ℕ) → IsKept a a
  IsKept-refl a = record { grown = refl; kept = λ y h. h }

  IsKept-trans : (a b c : State × ℕ) → IsKept a b → IsKept b c → IsKept a c
  IsKept-trans a b c h k = record {
    grown = omega (arith, h.grown, k.grown);
    kept = λ y p. k.kept y (h.kept y p);
  }

  -- The lists alone decide.
  IsKept-lists :
      (a : State × ℕ) (t u : State) (n : ℕ)
      → ((q : Key) → lrange q u ≡ lrange q t)
      → IsKept a (t, n)
      → IsKept a (u, n)
  IsKept-lists a t u n same h = record {
    grown = rw (same (pending d)) h.grown;
    kept = λ y p. rw (same (pending d), same (processing d)) (h.kept y p);
  }

  pushed_lem :
      (x y : Item) (ps qs : List Item)
      → (occurs y ps || occurs y qs) ≡ true
      → (occurs y (x ∷ ps) || occurs y (remove_all x qs)) ≡ true
  unfolding occurs
  pushed_lem x y ps qs h = elim (Bool-cases (occurs y ps)) [
    | inl e ↦ ground (arith, e)
    | inr e ↦ elim (occurs-remove_all x y qs (ground arith)) [
      | inl same ↦ rw (same, item_eq_refl y) refl
      | inr k ↦ ground (arith, k)
    ]
  ]

  unmoved_lem :
      (x y : Item) (ps qs : List Item)
      → length (remove_all x qs) ≡ length qs
      → (occurs y ps || occurs y qs) ≡ true
      → (occurs y ps || occurs y (remove_all x qs)) ≡ true
  unmoved_lem x y ps qs n h = elim (Bool-cases (occurs y qs)) [
    | inl e ↦ elim (occurs-remove_all x y qs e) [
      | inl same ↦
          absurd (
            let lt = remove_all-lt y qs e in omega (arith, ap (λ z. length (remove_all z qs)) same))
      | inr k ↦ ground (arith, k)
    ]
    | inr e ↦ ground (arith, e)
  ]

  requeue-IsKept :
      (x : Item) (s : State) (count : ℕ)
      → let (s', moved) = requeue_item_atomic r (processing d) (pending d) x s in
        IsKept (s, count) (s', count + moved)
  unfolding requeue_item_atomic
  requeue-IsKept x s count =
      let (s', n) = lrem_all (processing d) x s in
      let left = lrange-lrem_all (pending d) (processing d) x s in
      let cut : lrange (processing d) s' ≡ remove_all x (lrange (processing d) s) =
        lrange-lrem_all (processing d) (processing d) x s ∙ rw (eq_refl d) refl in
      let front : lrange (pending d) (lpush (pending d) x s') ≡ x ∷ lrange (pending d) s =
        lrange-lpush (pending d) (pending d) x s' ∙ rw (eq_refl d, left) refl in
      let other : lrange (processing d) (lpush (pending d) x s') ≡ lrange (processing d) s' =
        lrange-lpush (processing d) (pending d) x s' in
      elim (Bool-cases (ltb 0 n)) [
        | inl e ↦ rw e (record {
          grown = rw front (omega arith);
          kept = λ y h. rw (front, other, cut) (pushed_lem x y _ _ h);
        })
        | inr e ↦
            let none_removed : length (remove_all x (lrange (processing d) s))
                ≡ length (lrange (processing d) s) =
              ground (arith, removed-lrem_all (processing d) x s) in
            rw e (record {
              grown = rw left (omega arith);
              kept = λ y h. rw (left, cut) (unmoved_lem x y _ _ none_removed h);
            })
      ]

  moved-le : (x : Item) (s : State) → (requeue_item_atomic r (processing d) (pending d) x s).1 ≤ 1
  unfolding requeue_item_atomic
  moved-le x s = ground arith

  marked-IsKept :
      (a : State × ℕ) (known : Bool) (tid : String) (now : ℕ) (s : State) (n : ℕ)
      → IsKept a (s, n)
      → IsKept a (if known then mark_recovered r tid now s else s, n)
  unfolding mark_recovered
  marked-IsKept a true tid now s n h =
      IsKept-lists a s _ n (lrange-cas_update r tid (recovered now) none s) h
  marked-IsKept a false tid now s n h = h

  recover_item-IsKept :
      (timeout now : ℕ) (t : Task) (s : State) (count : ℕ)
      → IsKept (s, count) (recover_item r d timeout now t (s, count))
  unfolding recover_item
  recover_item-IsKept timeout now t s count =
      let state = hget t.task_id s in
      let (s', moved) = requeue_item_atomic r (processing d) (pending d) (item t) s in
      let h = requeue-IsKept (item t) s count in
      elim (is_late now timeout state t)
        as (λ (b : Bool).
          IsKept (s, count)
            (if not b
              then (s, count)
              else if moved == 0
              then (s', count)
              else (if is_some state then mark_recovered r t.task_id now s' else s', count + 1))) [
                | false ↦ IsKept-refl (s, count)
                | true ↦ elim (Bool-cases (moved == 0)) [
                  | inl e ↦ rw e (
                      subst (λ (n : ℕ). IsKept (s, count) (s', n))
                        (let z : count + moved ≡ count = ground arith in z) h)
                  | inr e ↦ rw e (
                      subst
                        (λ (n : ℕ).
                          IsKept (s, count)
                            (if is_some state then mark_recovered r t.task_id now s' else s', n))
                        (let z : count + moved ≡ count + 1 = ground (arith, moved-le (item t) s) in
                          z)
                        (marked-IsKept (s, count) (is_some state) t.task_id now s' (count + moved)
                          h))
                ]
              ]

  recover_items-IsKept :
      (timeout now : ℕ) (items : List Item) (a : State × ℕ)
      → IsKept a (recover_items r d timeout now items a)
  unfolding recover_items
  recover_items-IsKept timeout now [] a = IsKept-refl a
  recover_items-IsKept timeout now (corrupt x ∷ items) a = recover_items-IsKept timeout now items a
  recover_items-IsKept timeout now (item t ∷ items) a =
      IsKept-trans a (recover_item r d timeout now t a) _
        (recover_item-IsKept timeout now t a.0 a.1)
        (recover_items-IsKept timeout now items (recover_item r d timeout now t a))

  -- The sweep loses no item: one that was in the device's queue or in its processing list is in one of
  -- them still. The queue grows by the number that the sweep answers.
  pub recover_keeps_items :
      (timeout now : ℕ) (s : State)
      → let (s', count) = recover_stale_processing r d timeout now s in
        (length (lrange (pending d) s') ≡ length (lrange (pending d) s) + count)
        × ((y : Item)
            → (occurs y (lrange (pending d) s) || occurs y (lrange (processing d) s)) ≡ true
            → (occurs y (lrange (pending d) s') || occurs y (lrange (processing d) s')) ≡ true)
  unfolding recover_stale_processing
  recover_keeps_items timeout now s =
      let h = recover_items-IsKept timeout now (lrange (processing d) s) (s, 0) in
      (omega (arith, h.grown), h.kept)
