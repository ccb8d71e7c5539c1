-- ===== src/TaskStore/Delivery/Pop.antt =====
-- What `pop_pending_tasks` takes, leaves and records, and that `requeue_pending_tasks` puts it back.
use qwen.Prelude.{
  ℕ, zero, suc, String, ◌≡◌, refl, ap, List, [], ◌∷◌, ◌++◌, reverse, arith, take, drop,
  take-append-drop, take-nil, drop-nil, sym, ◌∙◌, eq_iff, str_eq, eq_refl, if◌then◌else◌,
}
use mathlib.Core.List.{reverse-cons, reverse-reverse, append_assoc}
use qwen.Prelude.Dict.{Dict, get_or-put}
use qwen.TaskStore.{Task, TaskState, Store, queue_of, keep_queue_lem}
use qwen.TaskStore.Delivery.{
  Claim, claim, pop_loop, pop_queue, pop_pending_tasks, requeue_loop, requeue_pending_tasks,
}

pop_loop-take : (now n : ℕ) (queue : List ℕ) (c : Claim) → (pop_loop now n queue c).0 ≡ take n queue
unfolding pop_loop
pop_loop-take now zero queue c = refl
pop_loop-take now (suc n) [] c = refl
pop_loop-take now (suc n) (r ∷ queue) c = ap (◌∷◌ r) (pop_loop-take now n queue (claim now r c))

pop_loop-drop : (now n : ℕ) (queue : List ℕ) (c : Claim) → (pop_loop now n queue c).1 ≡ drop n queue
unfolding pop_loop
pop_loop-drop now zero queue c = refl
pop_loop-drop now (suc n) [] c = refl
pop_loop-drop now (suc n) (r ∷ queue) c = pop_loop-drop now n queue (claim now r c)

pop_queue_lem :
    (d e : String) (limit now : ℕ) (queue : List ℕ) (s : Store)
    → queue ≡ queue_of d s
    → ((pop_queue d limit now queue s).1 ≡ take limit queue)
      × (queue_of e (pop_queue d limit now queue s).0
          ≡ (if str_eq d e then drop limit queue else queue_of e s))
unfolding pop_queue
pop_queue_lem d e limit now [] s h =
    (sym (take-nil limit), ground (arith, h, eq_iff d e, drop-nil {A = ℕ} limit))
pop_queue_lem d e limit now (r ∷ queue) s h = (
  pop_loop-take _ _ _ _,
  rw (pop_loop-drop) (keep_queue_lem d e (drop limit (r ∷ queue)) s.pending),
)

-- A pop returns the first `limit` tasks of the device's queue in order, leaves the rest in order, and
-- leaves every other device's queue as it was.
pub pop_fifo :
    (d e : String) (limit now : ℕ) (s : Store)
    → let (s', popped) = pop_pending_tasks d limit now s in
      (popped ≡ take limit (queue_of d s))
      × (queue_of e s' ≡ (if str_eq d e then drop limit (queue_of d s) else queue_of e s))
unfolding pop_pending_tasks
pop_fifo d e limit now s = pop_queue_lem d e limit now (queue_of d s) s refl

requeue_loop_lem :
    (heap : ℕ → Task) (rs queue : List ℕ) (tasks : Dict TaskState)
    → (requeue_loop heap rs queue tasks).0 ≡ reverse rs ++ queue
unfolding requeue_loop
requeue_loop_lem heap [] queue tasks = refl
requeue_loop_lem heap (r ∷ rs) queue tasks =
    requeue_loop_lem heap rs (r ∷ queue) _ ∙ simp (reverse-cons, append_assoc)

-- What is requeued stands before the queue, in its order.
pub queue_of-requeue :
    (d e : String) (rs : List ℕ) (s : Store)
    → queue_of e (requeue_pending_tasks d rs s).0
      ≡ (if str_eq d e then rs ++ queue_of d s else queue_of e s)
unfolding requeue_pending_tasks
queue_of-requeue d e rs s =
    rw (requeue_loop_lem s.heap (reverse rs) (queue_of d s) s.tasks, reverse-reverse)
      (get_or-put d e (rs ++ queue_of d s) [] s.pending)

-- A pop that is undone by a requeue of what it returned restores every queue.
pub requeue-pop :
    (d e : String) (limit now : ℕ) (s : Store)
    → let (s', popped) = pop_pending_tasks d limit now s in
      queue_of e (requeue_pending_tasks d popped s').0 ≡ queue_of e s
requeue-pop d e limit now s =
    let (s', popped) = pop_pending_tasks d limit now s in
    ground (
      arith,
      queue_of-requeue d e popped s',
      pop_fifo d e limit now s,
      pop_fifo d d limit now s,
      eq_refl d,
      eq_iff d e,
      take-append-drop limit (queue_of d s),
    )
