-- ===== src/TaskStore/Delivery/Expiry.antt =====
-- What `expire_stale_queued` drops from a queue, and what it writes to the task table.
use qwen.Prelude.{
  ℕ, ◌+◌, String, ◌≡◌, refl, Bool, false, ◌&&◌, ◌||◌, not, Option, none, some, List, [], ◌∷◌, arith,
  length, select, str_eq, eq_iff, eq_refl, if◌then◌else◌, Option-cases, inl, inr,
}
use qwen.Prelude.Dict.{Dict, get, get-put}
use qwen.TaskStore.{
  Task, TaskState, Store, queue_of, keep_queue_lem, is_stale, mark_expired, expire_loop,
  expire_queue, expire_stale_queued,
}

-- The tasks of a queue that stay, by the time of their enqueueing.
abbrev pub fresh : ℕ → ℕ → (ℕ → Task) → ℕ → Bool
fresh now max_age heap r = not (is_stale now max_age (heap r).enqueued_at)

abbrev pub expire_state : Option TaskState → Option TaskState
expire_state none = none
expire_state (some state) =
    some (if str_eq state.status "queued" then record state { status = "expired" } else state)

-- Whether the queue holds a task of that id that is over age.
pub has_stale : (Task → Bool) → (ℕ → Task) → String → List ℕ → Bool
has_stale stale heap tid [] = false
has_stale stale heap tid (r ∷ queue) =
    stale (heap r) && str_eq (heap r).task_id tid || has_stale stale heap tid queue

expire_loop_kept :
    (stale : Task → Bool) (heap : ℕ → Task) (queue : List ℕ) (m : Dict TaskState)
    → ((expire_loop stale heap queue m).1 ≡ select (λ r. not (stale (heap r))) queue)
      × (length (expire_loop stale heap queue m).1 + (expire_loop stale heap queue m).2
          ≡ length queue)
unfolding expire_loop
expire_loop_kept stale heap [] m = (refl, refl)
expire_loop_kept stale heap (r ∷ queue) m =
    let (kept, count) =
      expire_loop_kept stale heap queue
        (if stale (heap r) then mark_expired (heap r).task_id m else m) in
    (ground (arith, kept), ground (arith, count))

get-mark_expired :
    (k tid : String) (m : Dict TaskState)
    → get tid (mark_expired k m) ≡ (if str_eq k tid then expire_state (get tid m) else get tid m)
unfolding mark_expired
get-mark_expired k tid m = elim (Option-cases (get k m)) [
  | inl e ↦ ground (arith, e, eq_iff k tid)
  | inr (state, e) ↦
      ground (arith, e, eq_iff k tid, get-put k tid (record state { status = "expired" }) m)
]

expire_loop_tasks :
    (stale : Task → Bool) (heap : ℕ → Task) (tid : String) (queue : List ℕ) (m : Dict TaskState)
    → get tid (expire_loop stale heap queue m).0
      ≡ (if has_stale stale heap tid queue then expire_state (get tid m) else get tid m)
unfolding expire_loop has_stale
expire_loop_tasks stale heap tid [] m = refl
expire_loop_tasks stale heap tid (r ∷ queue) m =
    let m' : Dict TaskState = if stale (heap r) then mark_expired (heap r).task_id m else m in
    ground
      (arith, expire_loop_tasks stale heap tid queue m', get-mark_expired (heap r).task_id tid m)

expire_queue_lem :
    (d e tid : String) (max_age now : ℕ) (queue : List ℕ) (s : Store)
    → queue ≡ queue_of d s
    → let (s', count) = expire_queue d max_age now queue s in
      (queue_of e s'
        ≡ (if str_eq d e then select (fresh now max_age s.heap) queue else queue_of e s))
      × (length (queue_of d s') + count ≡ length queue)
      × (get tid s'.tasks ≡ (
          if has_stale (λ t. is_stale now max_age t.enqueued_at) s.heap tid queue
          then expire_state (get tid s.tasks)
          else get tid s.tasks))
unfolding expire_queue
expire_queue_lem d e tid max_age now [] s h =
    unfold has_stale in (ground (arith, h, eq_iff d e), ground (arith, h), refl)
expire_queue_lem d e tid max_age now (r ∷ queue) s h =
    let stale : Task → Bool = λ t. is_stale now max_age t.enqueued_at in
    let (tasks, kept, count) = expire_loop stale s.heap (r ∷ queue) s.tasks in
    let (kept_is, counted) = expire_loop_kept stale s.heap (r ∷ queue) s.tasks in
    (
      rw (← kept_is) (keep_queue_lem d e kept s.pending),
      rw (keep_queue_lem d d kept s.pending, eq_refl d) counted,
      expire_loop_tasks stale s.heap tid (r ∷ queue) s.tasks,
    )

-- The expiry keeps exactly the queued tasks within the age, in order, and counts the others; a task
-- of which an over-age entry was dropped turns from `queued` to `expired` and keeps any other status,
-- and every other task's state stays.
pub expire_exact :
    (d e tid : String) (max_age now : ℕ) (s : Store)
    → let (s', count) = expire_stale_queued d max_age now s in
      (queue_of e s'
        ≡ (if str_eq d e then select (fresh now max_age s.heap) (queue_of d s) else queue_of e s))
      × (length (queue_of d s') + count ≡ length (queue_of d s))
      × (get tid s'.tasks ≡ (
          if has_stale (λ t. is_stale now max_age t.enqueued_at) s.heap tid (queue_of d s)
          then expire_state (get tid s.tasks)
          else get tid s.tasks))
unfolding expire_stale_queued
expire_exact d e tid max_age now s = expire_queue_lem d e tid max_age now (queue_of d s) s refl
