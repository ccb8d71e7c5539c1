-- ===== src/Redis/Table.antt =====
-- A server that keeps everything in dicts.
use qwen.Prelude.{
  ℕ, ◌+◌, ◌-◌, ◌≤◌, ◌≡◌, refl, sym, ap, ◌∙◌, map, eq_refl, false≢true, String, true, false, Option,
  none, some, List, [], ◌∷◌, ◌++◌, inl, inr, arith, if◌then◌else◌, eq_iff, length, Bool-cases,
}
use qwen.Prelude.Dict.{Dict, get, put, get_or, get-put, get_or-put}
use qwen.Redis.{
  Item, TaskState, Key, pending, processing, key_eq, occurs, remove_first, remove_all, head_of,
  tail_of, Server,
}

pub record Tables : Type 0 where
  pub tasks : Dict TaskState
  pub pending_lists : Dict (List Item)
  pub processing_lists : Dict (List Item)
  pub counter : ℕ

abbrev pub list_at : Key → Tables → List Item
list_at (pending d) t = get_or d t.pending_lists []
list_at (processing d) t = get_or d t.processing_lists []

abbrev pub set_list : Key → List Item → Tables → Tables
set_list (pending d) xs t = record t { pending_lists = put d xs t.pending_lists }
set_list (processing d) xs t = record t { processing_lists = put d xs t.processing_lists }

pub list_at-set_list :
    (p q : Key) (xs : List Item) (t : Tables)
    → list_at p (set_list q xs t) ≡ (if key_eq q p then xs else list_at p t)
list_at-set_list (pending d) (pending e) xs t = get_or-put e d xs [] t.pending_lists
list_at-set_list (pending d) (processing e) xs t = refl
list_at-set_list (processing d) (pending e) xs t = refl
list_at-set_list (processing d) (processing e) xs t = get_or-put e d xs [] t.processing_lists

pub tasks-set_list : (q : Key) (xs : List Item) (t : Tables) → (set_list q xs t).tasks ≡ t.tasks
tasks-set_list (pending d) xs t = refl
tasks-set_list (processing d) xs t = refl

pub length-remove_all-le : (x : Item) (ys : List Item) → length (remove_all x ys) ≤ length ys
unfolding remove_all
length-remove_all-le x [] = omega arith
length-remove_all-le x (y ∷ ys) = ground (arith, length-remove_all-le x ys)

pub key_eq-list_at : (p q : Key) (t : Tables) → key_eq q p ≡ true → list_at q t ≡ list_at p t
key_eq-list_at (pending d) (pending e) t h = ap (λ k. list_at (pending k) t) ((eq_iff e d).0 h)
key_eq-list_at (pending d) (processing e) t h = absurd (false≢true h)
key_eq-list_at (processing d) (pending e) t h = absurd (false≢true h)
key_eq-list_at (processing d) (processing e) t h =
    ap (λ k. list_at (processing k) t) ((eq_iff e d).0 h)

abbrev pub change_list : Key → (List Item → List Item) → Tables → Tables
change_list q f t = set_list q (f (list_at q t)) t

pub list_at-change_list :
    (p q : Key) (f : List Item → List Item) (t : Tables)
    → list_at p (change_list q f t) ≡ (if key_eq q p then f (list_at p t) else list_at p t)
list_at-change_list p q f t = elim (Bool-cases (key_eq q p)) [
  | inl e ↦ list_at-set_list p q _ t ∙ rw (e, key_eq-list_at p q t e) refl
  | inr e ↦ list_at-set_list p q _ t ∙ rw e refl
]

-- `LMOVE source target LEFT LEFT`
abbrev pub move : Key → Key → Option Item → Tables → Tables × Option Item
move p q none t = (t, none)
move p q (some x) t = (change_list q (λ xs. x ∷ xs) (change_list p tail_of t), some x)

pub hget-move :
    (k : String) (p q : Key) (o : Option Item) (t : Tables)
    → get k (move p q o t).0.tasks ≡ get k t.tasks
hget-move k p q none t = refl
hget-move k p q (some x) t =
    ap (get k) (tasks-set_list q _ (change_list p tail_of t) ∙ tasks-set_list p _ t)

pub moved : (p q : Key) (o : Option Item) (t : Tables) → (move p q o t).1 ≡ o
moved p q none t = refl
moved p q (some x) t = refl

pub tail_of-none : (xs : List Item) → none ≡ head_of xs → xs ≡ tail_of xs
tail_of-none [] h = refl
tail_of-none (x ∷ xs) h = absurd (cc)

pub key_eq-both : (p q k : Key) → key_eq p k ≡ true → key_eq q k ≡ true → key_eq p q ≡ true
key_eq-both (pending d) (pending e) (pending f) h g =
    rw ((eq_iff d f).0 h, (eq_iff e f).0 g) (eq_refl f)
key_eq-both (processing d) (processing e) (processing f) h g =
    rw ((eq_iff d f).0 h, (eq_iff e f).0 g) (eq_refl f)
key_eq-both (pending d) (processing e) (pending f) h g = absurd (false≢true g)
key_eq-both (pending d) (processing e) (processing f) h g = absurd (false≢true h)
key_eq-both (pending d) (pending e) (processing f) h g = absurd (false≢true h)
key_eq-both (processing d) (pending e) (pending f) h g = absurd (false≢true h)
key_eq-both (processing d) (pending e) (processing f) h g = absurd (false≢true g)
key_eq-both (processing d) (processing e) (pending f) h g = absurd (false≢true h)

pub list_at-move :
    (p q k : Key) (o : Option Item) (t : Tables)
    → o ≡ head_of (list_at p t)
    → key_eq p q ≡ false
    → list_at k (move p q o t).0 ≡ (
        if key_eq p k
        then tail_of (list_at k t)
        else if key_eq q k
        then (elim o [ none ↦ list_at k t | some x ↦ x ∷ list_at k t ])
        else list_at k t)
list_at-move p q k none t o ne = elim (Bool-cases (key_eq p k)) [
  | inl e ↦ rw e (tail_of-none (list_at k t) (o ∙ ap head_of (key_eq-list_at k p t e)))
  | inr e ↦
      rw e (elim (key_eq q k) as (λ b. list_at k t ≡ (if b then list_at k t else list_at k t)) [
        | true ↦ refl
        | false ↦ refl
      ])
]
list_at-move p q k (some x) t o ne =
    let t' = change_list p tail_of t in
    elim (Bool-cases (key_eq p k)) [
      | inl e ↦ elim (Bool-cases (key_eq q k)) [
        | inl f ↦ absurd (false≢true (sym ne ∙ key_eq-both p q k e f))
        | inr f ↦
            list_at-change_list k q (λ xs. x ∷ xs) t'
            ∙ rw (f, e) (list_at-change_list k p tail_of t ∙ rw e refl)
      ]
      | inr e ↦
          let here : list_at k t' ≡ list_at k t = list_at-change_list k p tail_of t ∙ rw e refl in
          rw e (
            list_at-change_list k q (λ xs. x ∷ xs) t'
            ∙ ap (λ xs. if key_eq q k then x ∷ xs else xs) here)
    ]

pub list_at-tasks :
    (q : Key) (m : Dict TaskState) (t : Tables) → list_at q (record t { tasks = m }) ≡ list_at q t
list_at-tasks (pending d) m t = refl
list_at-tasks (processing d) m t = refl

pub lrem_count :
    (x : Item) (xs : List Item)
    → length xs - length (remove_all x xs) + length (remove_all x xs) ≡ length xs
lrem_count x xs = omega (arith, length-remove_all-le x xs)

abbrev pub tables : Server
tables = record {
  State = Tables;
  hget = λ k t. get k t.tasks;
  hset = λ k v t. record t { tasks = put k v t.tasks };
  hgetall = λ t. t.tasks;
  incr = λ t. (record t { counter = t.counter + 1 }, t.counter + 1);
  scan_pending = λ t. map (λ p. p.0) t.pending_lists;
  lrange = list_at;
  rpush = λ q x t. change_list q (λ xs. xs ++ x ∷ []) t;
  lpush = λ q x t. change_list q (λ xs. x ∷ xs) t;
  lrem_one = λ q x t. (change_list q (remove_first x) t, if occurs x (list_at q t) then 1 else 0);
  lrem_all = λ q x t.
      (change_list q (remove_all x) t, length (list_at q t) - length (remove_all x (list_at q t)));
  lmove = λ p q t. move p q (head_of (list_at p t)) t;
  hget-hset = λ k j v t. get-put k j v t.tasks;
  lrange-hset = λ q k v t. list_at-tasks q (put k v t.tasks) t;
  hget-rpush = λ k q x t. ap (get k) (tasks-set_list q _ t);
  lrange-rpush = λ p q x t. list_at-change_list p q (λ xs. xs ++ x ∷ []) t;
  hget-lpush = λ k q x t. ap (get k) (tasks-set_list q _ t);
  lrange-lpush = λ p q x t. list_at-change_list p q (λ xs. x ∷ xs) t;
  hget-lrem_one = λ k q x t. ap (get k) (tasks-set_list q _ t);
  lrange-lrem_one = λ p q x t. list_at-change_list p q (remove_first x) t;
  removed-lrem_one = λ q x t. refl;
  hget-lrem_all = λ k q x t. ap (get k) (tasks-set_list q _ t);
  lrange-lrem_all = λ p q x t. list_at-change_list p q (remove_all x) t;
  removed-lrem_all = λ q x t. lrem_count x (list_at q t);
  hget-lmove = λ k p q t. hget-move k p q (head_of (list_at p t)) t;
  lmove-moved = λ p q t. moved p q (head_of (list_at p t)) t;
  lrange-lmove = λ p q k t ne. list_at-move p q k (head_of (list_at p t)) t refl ne;
}
