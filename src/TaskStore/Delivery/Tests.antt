-- ===== src/TaskStore/Delivery/Tests.antt =====
-- Two tasks of one device, queued, popped, timed out and taken back.
use qwen.Prelude.{
  ℕ, ◌+◌, ◌≡◌, refl, true, false, none, some, [], ◌∷◌, ◌++◌, reverse, arith, ◌==◌, if◌then◌else◌,
  length, take, drop, select, All,
}
use qwen.Prelude.Dict.{get, put, has}
use qwen.TaskStore.{Task, Entry, Store, init, queue_of, expire_stale_queued, is_stale}
use qwen.TaskStore.Delivery.{
  enqueue_pending_task, pop_pending_tasks, pop_queue, pop_loop, claim, requeue_pending_tasks,
  ack_processing, processing_of, recover_stale_processing, timed_out, mark_task_dispatched,
}
use qwen.TaskStore.Delivery.Pop.{pop_fifo, requeue-pop}
use qwen.TaskStore.Delivery.Claims.{IsClaimed, claim_of, pop-IsClaimed}
use qwen.TaskStore.Delivery.Generation.{gen_in}
use qwen.TaskStore.Delivery.Steps.{here, next, popped, dispatched, stale_ack_refused}
use qwen.TaskStore.Delivery.Sweep.{late_tasks, is_late, recover_exact}
use qwen.TaskStore.Delivery.Expiry.{fresh, has_stale, expire_state, expire_exact}

abbrev task_dicts : ℕ → Task
task_dicts r = record {
  task_id = if r == 1 then "task-000001" else "task-000002";
  device_id = "plotter";
  capability = "run_path";
  source = "app";
  enqueued_at = 0;
  dispatch_gen = none;
}

abbrev two_queued : Store
two_queued =
    (enqueue_pending_task "plotter" 2 20
      (enqueue_pending_task "plotter" 1 10 (init task_dicts)).0).0

abbrev one_sent : Store
one_sent = (pop_pending_tasks "plotter" 1 30 two_queued).0

abbrev sent_entry : Entry
sent_entry = record { task = 1; processing_started_at = 30 }

popped_first : (pop_pending_tasks "plotter" 1 30 two_queued).1 ≡ 1 ∷ []
unfolding pop_pending_tasks pop_queue pop_loop claim enqueue_pending_task init get put
popped_first = refl

sent_first : get "task-000001" (processing_of "plotter" one_sent) ≡ some sent_entry
unfolding pop_pending_tasks pop_queue pop_loop claim enqueue_pending_task init get put
sent_first = refl

known_first : has "task-000001" one_sent.tasks ≡ true
unfolding pop_pending_tasks pop_queue pop_loop claim enqueue_pending_task init get put
known_first = refl

gen_first : gen_in "task-000001" one_sent.tasks ≡ 0
unfolding pop_pending_tasks pop_queue pop_loop claim enqueue_pending_task init get put
gen_first = refl

acked_first : (ack_processing false "plotter" "task-000001" none one_sent).1 ≡ true
unfolding ack_processing pop_pending_tasks pop_queue pop_loop claim enqueue_pending_task init get
    put
acked_first = refl

abbrev taken_back : Store
taken_back = (recover_stale_processing "plotter" 100 500 one_sent).0

-- The sweep, and a second dispatch of the task after it.
abbrev sent_again : Store
sent_again = mark_task_dispatched "task-000001" (pop_pending_tasks "plotter" 16 600 taken_back).0

stale_ack_refused_example :
    ack_processing false "plotter" "task-000001" (some 0) sent_again ≡ (sent_again, false)
unfolding timed_out
stale_ack_refused_example =
    stale_ack_refused one_sent sent_again "plotter" "plotter" "task-000001" 100 500 0 false
      sent_first refl known_first (omega (arith, gen_first))
      (next (next here (popped "plotter" 16 600)) (dispatched "task-000001"))

pop-IsClaimed_example :
    All
      (λ r. IsClaimed 30 (two_queued.heap r).task_id (claim_of "plotter" one_sent))
      (pop_pending_tasks "plotter" 1 30 two_queued).1
pop-IsClaimed_example = pop-IsClaimed "plotter" 1 30 two_queued

pop_fifo_example :
    ((pop_pending_tasks "plotter" 1 30 two_queued).1 ≡ take 1 (queue_of "plotter" two_queued))
    × (queue_of "plotter" one_sent ≡ drop 1 (queue_of "plotter" two_queued))
pop_fifo_example = pop_fifo "plotter" "plotter" 1 30 two_queued

requeue-pop_example :
    queue_of "plotter"
      (requeue_pending_tasks "plotter" (pop_pending_tasks "plotter" 1 30 two_queued).1 one_sent).0
    ≡ queue_of "plotter" two_queued
requeue-pop_example = requeue-pop "plotter" "plotter" 1 30 two_queued

recover_exact_example :
    let (s', count) = recover_stale_processing "plotter" 100 500 one_sent in
    let late = late_tasks (timed_out 500 100) (processing_of "plotter" one_sent) in
    (queue_of "plotter" s' ≡ reverse late ++ queue_of "plotter" one_sent)
    × (count ≡ length late)
    × (get "task-000001" (processing_of "plotter" s') ≡ (
        if is_late (timed_out 500 100) "task-000001" (processing_of "plotter" one_sent)
        then none
        else get "task-000001" (processing_of "plotter" one_sent)))
recover_exact_example = recover_exact "plotter" "plotter" "task-000001" 100 500 one_sent

expire_exact_example :
    let (s', count) = expire_stale_queued "plotter" 100 115 two_queued in
    (queue_of "plotter" s' ≡ select (fresh 115 100 two_queued.heap) (queue_of "plotter" two_queued))
    × (length (queue_of "plotter" s') + count ≡ length (queue_of "plotter" two_queued))
    × (get "task-000001" s'.tasks ≡ (
        if has_stale
          (λ t. is_stale 115 100 t.enqueued_at)
          two_queued.heap
          "task-000001"
          (queue_of "plotter" two_queued)
        then expire_state (get "task-000001" two_queued.tasks)
        else get "task-000001" two_queued.tasks))
expire_exact_example = expire_exact "plotter" "plotter" "task-000001" 100 115 two_queued
