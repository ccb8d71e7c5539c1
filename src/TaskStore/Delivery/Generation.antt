-- ===== src/TaskStore/Delivery/Generation.antt =====
-- Dispatch generations of the task table: no operation of the store lowers one.
use qwen.Prelude.{
  ℕ, zero, suc, ◌+◌, ◌≤◌, String, ◌≡◌, refl, Bool, true, false, Option, none, some, List, [], ◌∷◌,
  reverse, arith, str_eq, eq_iff, if◌then◌else◌, Bool-cases, Option-cases, inl, inr,
}
use qwen.Prelude.Dict.{Dict, get, put, get_or, get-put}
use qwen.TaskStore.{
  Task, TaskState, Entry, Store, new_state, queue_of, mark_expired, expire_loop, expire_queue,
  expire_stale_queued, is_stale,
}
use qwen.TaskStore.Delivery.{
  Claim, claim, pop_loop, pop_queue, requeue_loop, change, Recovery, recover_one, recover_loop,
  recover_items, processing_of, pop_pending_tasks, requeue_pending_tasks, recover_stale_processing,
  ack_processing, abandon_processing_task, increment_retry_count, remove_pending_task, timed_out,
}

-- The generation of a task in the table, 0 where the table does not have it.
abbrev pub gen_in : String → Dict TaskState → ℕ
gen_in tid tasks = elim (get tid tasks) [ none ↦ 0 | some state ↦ state.dispatch_gen ]

abbrev map_state : (TaskState → TaskState) → Option TaskState → Option TaskState
map_state f none = none
map_state f (some state) = some (f state)

pub get-change :
    (k j : String) (f : TaskState → TaskState) (m : Dict TaskState)
    → get j (change k f m) ≡ (if str_eq k j then map_state f (get j m) else get j m)
get-change k j f m = elim (Option-cases (get k m)) [
  | inl e ↦ ground (arith, e, eq_iff k j)
  | inr (state, e) ↦ ground (arith, e, eq_iff k j, get-put k j (f state) m)
]

-- No task's generation falls from the one table to the other.
pub record Grows (m m' : Dict TaskState) : Type 0 where
  pub at : (tid : String) → gen_in tid m ≤ gen_in tid m'

pub Grows-refl : (m : Dict TaskState) → Grows m m
Grows-refl m = record { at = λ tid. omega arith }

pub Grows-trans : {m m' m'' : Dict TaskState} → Grows m m' → Grows m' m'' → Grows m m''
Grows-trans g h = record { at = λ tid. omega (arith, g.at tid, h.at tid) }

pub Grows-put :
    (k : String) (v : TaskState) (m : Dict TaskState)
    → gen_in k m ≤ v.dispatch_gen
    → Grows m (put k v m)
Grows-put k v m h = record { at = λ tid. ground (arith, get-put k tid v m, eq_iff k tid) }

pub Grows-put_default :
    (k : String) (v : TaskState) (m : Dict TaskState) (task : Option ℕ) (status : String)
    → v.dispatch_gen ≡ (get_or k m (new_state task status)).dispatch_gen
    → Grows m (put k v m)
Grows-put_default k v m task status h = Grows-put k v m (ground arith)

pub Grows-change :
    (k : String) (f : TaskState → TaskState) (m : Dict TaskState)
    → ((state : TaskState) → state.dispatch_gen ≤ (f state).dispatch_gen)
    → Grows m (change k f m)
Grows-change k f m h = go (get k m) refl
  where
    go :
        (o : Option TaskState)
        → get k m ≡ o
        → Grows m (elim o [ none ↦ m | some state ↦ put k (f state) m ])
    go none e = Grows-refl m
    go (some state) e = Grows-put k (f state) m (ground (arith, e, h state))

Grows-mark_expired : (k : String) (m : Dict TaskState) → Grows m (mark_expired k m)
unfolding mark_expired
Grows-mark_expired k m = go (get k m) refl
  where
    go :
        (o : Option TaskState)
        → get k m ≡ o
        → Grows m (elim o [
          | none ↦ m
          | some state ↦
              if str_eq state.status "queued"
              then put k (record state { status = "expired" }) m
              else m
        ])
    go none e = Grows-refl m
    go (some state) e = elim (Bool-cases (str_eq state.status "queued")) [
      | inl t ↦ rw t (Grows-put k _ m (ground (arith, e)))
      | inr t ↦ rw t (Grows-refl m)
    ]

Grows-expire_loop :
    (stale : Task → Bool) (heap : ℕ → Task) (queue : List ℕ) (m : Dict TaskState)
    → Grows m (expire_loop stale heap queue m).0
unfolding expire_loop
Grows-expire_loop stale heap [] m = Grows-refl m
Grows-expire_loop stale heap (r ∷ queue) m = elim (Bool-cases (stale (heap r))) [
  | inl e ↦ rw e (
      Grows-trans (Grows-mark_expired (heap r).task_id m)
        (Grows-expire_loop stale heap queue (mark_expired (heap r).task_id m)))
  | inr e ↦ rw e (Grows-expire_loop stale heap queue m)
]

pub Grows-expire :
    (d : String) (max_age now : ℕ) (s : Store)
    → Grows s.tasks (expire_stale_queued d max_age now s).0.tasks
unfolding expire_stale_queued
Grows-expire d max_age now s = go (queue_of d s)
  where
    go : (queue : List ℕ) → Grows s.tasks (expire_queue d max_age now queue s).0.tasks
    go [] = Grows-refl s.tasks
    go (r ∷ queue) =
        Grows-expire_loop (λ t. is_stale now max_age t.enqueued_at) s.heap (r ∷ queue) s.tasks

Grows-claim : (now r : ℕ) (c : Claim) → Grows c.tasks (claim now r c).tasks
unfolding claim
Grows-claim now r c = Grows-put_default _ _ c.tasks (some r) "queued" refl

Grows-pop_loop :
    (now n : ℕ) (queue : List ℕ) (c : Claim) → Grows c.tasks (pop_loop now n queue c).2.tasks
unfolding pop_loop
Grows-pop_loop now zero queue c = Grows-refl c.tasks
Grows-pop_loop now (suc n) [] c = Grows-refl c.tasks
Grows-pop_loop now (suc n) (r ∷ queue) c =
    Grows-trans (Grows-claim now r c) (Grows-pop_loop now n queue (claim now r c))

pub Grows-pop :
    (d : String) (limit now : ℕ) (s : Store)
    → Grows s.tasks (pop_pending_tasks d limit now s).0.tasks
unfolding pop_pending_tasks
Grows-pop d limit now s = go (queue_of d s)
  where
    go : (queue : List ℕ) → Grows s.tasks (pop_queue d limit now queue s).0.tasks
    go [] = Grows-refl s.tasks
    go (r ∷ queue) =
        Grows-pop_loop now limit (r ∷ queue)
          (record { heap = s.heap; tasks = s.tasks; processing = processing_of d s })

Grows-requeue_loop :
    (heap : ℕ → Task) (rs queue : List ℕ) (m : Dict TaskState)
    → Grows m (requeue_loop heap rs queue m).1
unfolding requeue_loop
Grows-requeue_loop heap [] queue m = Grows-refl m
Grows-requeue_loop heap (r ∷ rs) queue m =
    Grows-trans (Grows-put_default _ _ m (some r) "created" refl)
      (Grows-requeue_loop heap rs (r ∷ queue) _)

pub Grows-requeue :
    (d : String) (rs : List ℕ) (s : Store) → Grows s.tasks (requeue_pending_tasks d rs s).0.tasks
unfolding requeue_pending_tasks
Grows-requeue d rs s = Grows-requeue_loop s.heap (reverse rs) (queue_of d s) s.tasks

pub Grows-recover_one :
    (tid : String) (e : Entry) (r : Recovery) → Grows r.tasks (recover_one tid e r).tasks
unfolding recover_one
Grows-recover_one tid e r = Grows-change tid _ r.tasks (λ state. omega arith)

pub Grows-recover_loop :
    (late : Entry → Bool) (items : Dict Entry) (r : Recovery)
    → Grows r.tasks (recover_loop late items r).tasks
unfolding recover_loop
Grows-recover_loop late [] r = Grows-refl r.tasks
Grows-recover_loop late ((tid, e) ∷ items) r =
    elim (late e)
      as (λ b.
        Grows r.tasks (recover_loop late items (if b then recover_one tid e r else r)).tasks) [
          | true ↦
              Grows-trans (Grows-recover_one tid e r)
                (Grows-recover_loop late items (recover_one tid e r))
          | false ↦ Grows-recover_loop late items r
        ]

pub Grows-recover :
    (d : String) (timeout now : ℕ) (s : Store)
    → Grows s.tasks (recover_stale_processing d timeout now s).0.tasks
unfolding recover_stale_processing
Grows-recover d timeout now s = go (processing_of d s)
  where
    go : (items : Dict Entry) → Grows s.tasks (recover_items d timeout now items s).0.tasks
    go [] = Grows-refl s.tasks
    go (item ∷ items) =
        Grows-recover_loop (timed_out now timeout) (item ∷ items)
          (record { queue = queue_of d s; tasks = s.tasks; processing = item ∷ items; count = 0 })

pub Grows-ack :
    (strict : Bool) (d tid : String) (gen : Option ℕ) (s : Store)
    → Grows s.tasks (ack_processing strict d tid gen s).0.tasks
unfolding ack_processing
Grows-ack strict d tid gen s =
    let grows =
      Grows-change tid (λ state. record state { processing_started_at = none }) s.tasks
        (λ state. omega arith) in
    record { at = λ k. ground (arith, grows.at k) }

pub Grows-abandon :
    (d tid : String) (s : Store) → Grows s.tasks (abandon_processing_task d tid s).0.tasks
unfolding abandon_processing_task
Grows-abandon d tid s =
    let grows =
      Grows-change tid
        (λ state. record state { status = "dead_letter"; processing_started_at = none }) s.tasks
        (λ state. omega arith) in
    record { at = λ k. ground (arith, grows.at k) }

pub Grows-increment :
    (tid : String) (s : Store) → Grows s.tasks (increment_retry_count tid s).0.tasks
unfolding increment_retry_count
Grows-increment tid s =
    let grows =
      Grows-change tid (λ state. record state { retry_count = state.retry_count + 1 }) s.tasks
        (λ state. omega arith) in
    record { at = λ k. ground (arith, grows.at k) }

pub Grows-remove :
    (d tid : String) (s : Store) → Grows s.tasks (remove_pending_task d tid s).0.tasks
unfolding remove_pending_task
Grows-remove d tid s = record { at = λ k. ground arith }
