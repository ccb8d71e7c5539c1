-- ===== src/TaskStore/Delivery/Retries.antt =====
-- The retries of the tasks in the store, and which methods change them.
use qwen.Prelude.{
  sym, ℕ, ◌+◌, String, ◌≡◌, refl, ap, subst, Option, none, some, List, [], ◌∷◌, arith, inl, inr,
  reverse, str_eq, eq_iff, if◌then◌else◌, Bool-cases, Option-cases,
}
use qwen.Prelude.Dict.{get_or, Dict, get, put, get-put, get-put_self, get-put_ne}
use qwen.TaskStore.{Task, TaskState, Store, new_state}
use qwen.TaskStore.Delivery.{
  increment_retry_count, abandon_processing_task, requeue_pending_tasks, requeue_loop, queued_state,
  change, processing_of,
}

abbrev pub count_of : Option TaskState → Option ℕ
count_of none = none
count_of (some state) = some state.retry_count

-- How often the task of this id was tried again; `none` for a task that the store does not know.
abbrev pub retries : String → Store → Option ℕ
retries k s = count_of (get k s.tasks)

abbrev pub raise : Option ℕ → Option ℕ
raise none = none
raise (some n) = some (n + 1)

pub retries-increment :
    (k tid : String) (s : Store)
    → retries k (increment_retry_count tid s).0
      ≡ (if str_eq tid k then raise (retries k s) else retries k s)
unfolding increment_retry_count
retries-increment k tid s = elim (Option-cases (get tid s.tasks)) [
  | inl e ↦ rw (increment_retry_count, e) (ground (arith, e, eq_iff tid k))
  | inr (state, e) ↦
      rw (increment_retry_count, e)
        (ground (
          arith,
          e,
          eq_iff tid k,
          get-put tid k (record state { retry_count = state.retry_count + 1 }) s.tasks,
        ))
]

pub increment-answer :
    (tid : String) (s : Store) (n : ℕ)
    → retries tid s ≡ some n
    → (increment_retry_count tid s).1 ≡ n + 1
unfolding increment_retry_count
increment-answer tid s n h = elim (Option-cases (get tid s.tasks)) [
  | inl e ↦ absurd (let f : none ≡ some n = rw e at h in cc)
  | inr (state, e) ↦ rw (increment_retry_count, e) (ground (arith, e, h))
]

pub heap-increment : (tid : String) (s : Store) → (increment_retry_count tid s).0.heap ≡ s.heap
unfolding increment_retry_count
heap-increment tid s = elim (Option-cases (get tid s.tasks)) [
  | inl e ↦ rw (increment_retry_count, e) refl
  | inr (state, e) ↦ rw (increment_retry_count, e) refl
]

change-count :
    (k tid : String) (f : TaskState → TaskState) (tasks : Dict TaskState)
    → ((state : TaskState) → (f state).retry_count ≡ state.retry_count)
    → count_of (get k (change tid f tasks)) ≡ count_of (get k tasks)
change-count k tid f tasks same = elim (Option-cases (get tid tasks)) [
  | inl e ↦ rw (change, e) refl
  | inr (state, e) ↦
      rw (change, e) (ground (arith, e, eq_iff tid k, same state, get-put tid k (f state) tasks))
]

pub retries-abandon :
    (k d tid : String) (s : Store) → retries k (abandon_processing_task d tid s).0 ≡ retries k s
unfolding abandon_processing_task
retries-abandon k d tid s = elim (Option-cases (get tid (processing_of d s))) [
  | inl e ↦ rw (abandon_processing_task, e) refl
  | inr (entry, e) ↦ rw (abandon_processing_task, e) (change-count k tid _ s.tasks (λ state. refl))
]

pub heap-abandon : (d tid : String) (s : Store) → (abandon_processing_task d tid s).0.heap ≡ s.heap
unfolding abandon_processing_task
heap-abandon d tid s = elim (Option-cases (get tid (processing_of d s))) [
  | inl e ↦ rw (abandon_processing_task, e) refl
  | inr (entry, e) ↦ rw (abandon_processing_task, e) refl
]

count-get_or :
    (k : String) (tasks : Dict TaskState) (d : TaskState) (n : ℕ)
    → count_of (get k tasks) ≡ some n
    → (get_or k tasks d).retry_count ≡ n
count-get_or k tasks d n h = elim (Option-cases (get k tasks)) [
  | inl e ↦ absurd (let g : none ≡ some n = rw e at h in cc)
  | inr (state, e) ↦ ground (arith, e, h)
]

queued-count :
    (k tid : String) (r n : ℕ) (tasks : Dict TaskState)
    → count_of (get k tasks) ≡ some n
    → count_of (get k (put tid (queued_state r tid tasks) tasks)) ≡ some n
queued-count k tid r n tasks h = elim (Bool-cases (str_eq tid k)) [
  | inl e ↦
      subst (λ j. count_of (get k (put j (queued_state r j tasks) tasks)) ≡ some n)
        (sym ((eq_iff tid k).0 e))
        (rw (get-put_self k (queued_state r k tasks) tasks)
          (ap some (count-get_or k tasks (new_state (some r) "created") n h)))
  | inr e ↦ rw (get-put_ne tid k (queued_state r tid tasks) tasks e) h
]

requeue_loop-count :
    (k : String) (n : ℕ) (heap : ℕ → Task) (rs queue : List ℕ) (tasks : Dict TaskState)
    → count_of (get k tasks) ≡ some n
    → count_of (get k (requeue_loop heap rs queue tasks).1) ≡ some n
unfolding requeue_loop
requeue_loop-count k n heap [] queue tasks h = h
requeue_loop-count k n heap (r ∷ rs) queue tasks h =
    requeue_loop-count k n heap rs (r ∷ queue) _ (queued-count k (heap r).task_id r n tasks h)

pub retries-requeue :
    (k d : String) (n : ℕ) (rs : List ℕ) (s : Store)
    → retries k s ≡ some n
    → retries k (requeue_pending_tasks d rs s).0 ≡ some n
unfolding requeue_pending_tasks
retries-requeue k d n rs s h = requeue_loop-count k n s.heap (reverse rs) _ s.tasks h

pub heap-requeue :
    (d : String) (rs : List ℕ) (s : Store) → (requeue_pending_tasks d rs s).0.heap ≡ s.heap
unfolding requeue_pending_tasks
heap-requeue d rs s = refl
