-- ===== src/TaskStore/Delivery/Steps.antt =====
-- The store under any sequence of its methods, in any order and from any channel. A task id is created
-- once; `reset` is for tests.
use qwen.Prelude.{
  ℕ, ◌≤◌, ◌<◌, String, ◌≡◌, refl, Bool, true, false, Option, none, some, List, arith,
}
use qwen.Prelude.Dict.{get, has}
use qwen.Motion.{MotionEvent}
use qwen.TaskStore.{
  Entry, Store, next_task_id, create_task_state, record_motion_event, expire_stale_queued,
  new_state,
}
use qwen.TaskStore.Delivery.{
  enqueue_pending_task, pop_pending_tasks, requeue_pending_tasks, mark_task_dispatched,
  ack_processing, recover_stale_processing, increment_retry_count, reset_task_for_retry,
  remove_pending_task, abandon_processing_task, processing_of, timed_out,
}
use qwen.TaskStore.Delivery.Generation
use qwen.TaskStore.Delivery.Generation.{
  gen_in, Grows, Grows-refl, Grows-trans, Grows-put, Grows-put_default, Grows-change,
}
use qwen.TaskStore.Delivery.Recover.{raises-recover}

pub data Step (s : Store) : Store → Type 0 where
  numbered : (format : ℕ → String) → Step s (next_task_id format s).0
  created :
      (r : ℕ) (status : String)
      → get (s.heap r).task_id s.tasks ≡ none
      → Step s (create_task_state r status s)
  moved : (e : MotionEvent) → Step s (record_motion_event e s).0
  expired : (d : String) (max_age now : ℕ) → Step s (expire_stale_queued d max_age now s).0
  enqueued : (d : String) (r now : ℕ) → Step s (enqueue_pending_task d r now s).0
  popped : (d : String) (limit now : ℕ) → Step s (pop_pending_tasks d limit now s).0
  requeued : (d : String) (rs : List ℕ) → Step s (requeue_pending_tasks d rs s).0
  dispatched : (tid : String) → Step s (mark_task_dispatched tid s)
  acked :
      (strict : Bool) (d tid : String) (gen : Option ℕ)
      → Step s (ack_processing strict d tid gen s).0
  recovered : (d : String) (timeout now : ℕ) → Step s (recover_stale_processing d timeout now s).0
  retried : (tid : String) → Step s (increment_retry_count tid s).0
  retry_reset : (tid : String) → Step s (reset_task_for_retry tid s)
  removed : (d tid : String) → Step s (remove_pending_task d tid s).0
  abandoned : (d tid : String) → Step s (abandon_processing_task d tid s).0

pub data Reach (s : Store) : Store → Type 0 where
  here : Reach s s
  next : {t u : Store} → Reach s t → Step t u → Reach s u

Grows-created :
    (s : Store) (r : ℕ) (status : String)
    → get (s.heap r).task_id s.tasks ≡ none
    → Grows s.tasks (create_task_state r status s).tasks
unfolding create_task_state
Grows-created s r status fresh =
    Grows-put _ (new_state (some r) status) s.tasks (ground (arith, fresh))

Grows-moved : (s : Store) (e : MotionEvent) → Grows s.tasks (record_motion_event e s).0.tasks
unfolding record_motion_event
Grows-moved s e = Grows-put_default e.task_id _ s.tasks none "unknown" refl

Step-Grows : {s t : Store} → Step s t → Grows s.tasks t.tasks
Step-Grows {s} (numbered format) = unfold next_task_id in Grows-refl s.tasks
Step-Grows {s} (created r status fresh) = Grows-created s r status fresh
Step-Grows {s} (moved e) = Grows-moved s e
Step-Grows {s} (expired d max_age now) = Generation.Grows-expire d max_age now s
Step-Grows {s} (enqueued d r now) =
    unfold enqueue_pending_task in Grows-put_default _ _ s.tasks (some r) "created" refl
Step-Grows {s} (popped d limit now) = Generation.Grows-pop d limit now s
Step-Grows {s} (requeued d rs) = Generation.Grows-requeue d rs s
Step-Grows {s} (dispatched tid) =
    unfold mark_task_dispatched in Grows-change tid _ s.tasks (λ state. omega arith)
Step-Grows {s} (acked strict d tid gen) = Generation.Grows-ack strict d tid gen s
Step-Grows {s} (recovered d timeout now) = Generation.Grows-recover d timeout now s
Step-Grows {s} (retried tid) = Generation.Grows-increment tid s
Step-Grows {s} (retry_reset tid) =
    unfold reset_task_for_retry in Grows-change tid _ s.tasks (λ state. omega arith)
Step-Grows {s} (removed d tid) = Generation.Grows-remove d tid s
Step-Grows {s} (abandoned d tid) = Generation.Grows-abandon d tid s

-- Whatever methods run, in whatever order, no task's dispatch generation ever falls.
pub Reach-gen : {s t : Store} (tid : String) → Reach s t → gen_in tid s.tasks ≤ gen_in tid t.tasks
Reach-gen tid here = omega arith
Reach-gen tid (next r st) = omega (arith, Reach-gen tid r, (Step-Grows st).at tid)

rejects_older :
    (strict : Bool) (d tid : String) (g : ℕ) (s : Store)
    → g < gen_in tid s.tasks
    → ack_processing strict d tid (some g) s ≡ (s, false)
unfolding ack_processing
rejects_older strict d tid g s h = ground arith

-- Once the sweep has taken back a task that has a state, an acknowledgement with a generation from
-- before the sweep, at any device, is refused and changes nothing, whatever methods have run in
-- between.
pub stale_ack_refused :
    (s t : Store) (d d' tid : String) (timeout now g : ℕ) (strict : Bool) {e : Entry}
    → get tid (processing_of d s) ≡ some e
    → timed_out now timeout e ≡ true
    → has tid s.tasks ≡ true
    → g ≤ gen_in tid s.tasks
    → Reach (recover_stale_processing d timeout now s).0 t
    → ack_processing strict d' tid (some g) t ≡ (t, false)
stale_ack_refused s t d d' tid timeout now g strict found late known old reach =
    rejects_older strict d' tid g t
      (omega (arith, raises-recover d tid timeout now s found late known, Reach-gen tid reach))
