-- ===== src/TaskStore/Delivery.antt =====
-- device_gateway/memory_store.py: the methods that move a task between a device's queue and its
-- processing table, and those that count retries and list tasks.
pub mod Pop
pub mod Claims
pub mod Generation
pub mod Recover
pub mod Steps
pub mod Ack
pub mod Sweep
pub mod Counts
pub mod Expiry
pub mod Retries
mod Tests
use qwen.Prelude.{
  ℕ, zero, suc, ◌+◌, ◌-◌, String, Bool, true, false, ◌&&◌, not, Option, none, some, List, [], ◌∷◌,
  ◌++◌, reverse, ltb, ◌==◌, if◌then◌else◌, str_eq, length,
}
use qwen.Prelude.Dict.{Dict, get, put, remove, get_or}
use qwen.TaskStore.{Task, TaskState, Entry, Store, update, new_state, queue_of, keep_queue}

-- What happens to the state of a task that is put into a queue.
abbrev pub queued_state : ℕ → String → Dict TaskState → TaskState
queued_state r tid tasks = record (get_or tid tasks (new_state (some r) "created")) {
  task = some r;
  status = "queued";
}

unfoldable pub enqueue_pending_task : String → ℕ → ℕ → Store → Store × ℕ
enqueue_pending_task d r now s =
    let tid = (s.heap r).task_id in
    let queue = queue_of d s ++ r ∷ [] in
    (
      record s {
        heap = update s.heap r (record (s.heap r) { enqueued_at = now });
        pending = put d queue s.pending;
        tasks = put tid (queued_state r tid s.tasks) s.tasks;
      },
      length queue,
    )

-- What the loop of `pop_pending_tasks` writes to, beside the queue.
pub record Claim : Type 0 where
  pub heap : ℕ → Task
  pub tasks : Dict TaskState
  pub processing : Dict Entry

-- One round of the loop.
claim : ℕ → ℕ → Claim → Claim
claim now r c =
    let tid = (c.heap r).task_id in
    let state = get_or tid c.tasks (new_state (some r) "queued") in
    record {
      heap = update c.heap r (record (c.heap r) { dispatch_gen = some state.dispatch_gen });
      tasks =
          put tid (record state { status = "dispatching"; processing_started_at = some now })
            c.tasks;
      processing = put tid (record { task = r; processing_started_at = now }) c.processing;
    }

-- The tasks popped, the queue left and the tables; the number bounds the tasks still to be popped.
pop_loop : ℕ → ℕ → List ℕ → Claim → List ℕ × List ℕ × Claim
unfolding claim
pop_loop now zero queue c = ([], queue, c)
pop_loop now (suc n) [] c = ([], [], c)
pop_loop now (suc n) (r ∷ queue) c =
    let (tasks, rest, c') = pop_loop now n queue (claim now r c) in (r ∷ tasks, rest, c')

pop_queue : String → ℕ → ℕ → List ℕ → Store → Store × List ℕ
pop_queue d limit now [] s = (s, [])
pop_queue d limit now (r ∷ queue) s =
    let (tasks, rest, c) =
      pop_loop now limit (r ∷ queue)
        (record { heap = s.heap; tasks = s.tasks; processing = get_or d s.processing [] }) in
    (
      record s {
        heap = c.heap;
        tasks = c.tasks;
        pending = keep_queue d rest s.pending;
        processing = put d c.processing s.processing;
      },
      tasks,
    )

pub pop_pending_tasks : String → ℕ → ℕ → Store → Store × List ℕ
unfolding pop_queue
pop_pending_tasks d limit now s = pop_queue d limit now (queue_of d s) s

-- The loop over `reversed(tasks)`, each put to the front.
requeue_loop : (ℕ → Task) → List ℕ → List ℕ → Dict TaskState → List ℕ × Dict TaskState
requeue_loop heap [] queue tasks = (queue, tasks)
requeue_loop heap (r ∷ rs) queue tasks =
    requeue_loop heap rs (r ∷ queue)
      (put (heap r).task_id (queued_state r (heap r).task_id tasks) tasks)

pub requeue_pending_tasks : String → List ℕ → Store → Store × ℕ
unfolding requeue_loop
requeue_pending_tasks d rs s =
    let (queue, tasks) = requeue_loop s.heap (reverse rs) (queue_of d s) s.tasks in
    (record s { pending = put d queue s.pending; tasks = tasks }, length queue)

abbrev change : String → (TaskState → TaskState) → Dict TaskState → Dict TaskState
change tid f tasks = elim (get tid tasks) [ none ↦ tasks | some state ↦ put tid (f state) tasks ]

unfoldable pub mark_task_dispatched : String → Store → Store
mark_task_dispatched tid s = record s {
  tasks = change tid (λ state. record state { status = "dispatched" }) s.tasks;
}

-- The test on the generation. `strict` is the deployment's flag `strict_dispatch_gen`.
pub is_stale_ack : Bool → Option ℕ → Option TaskState → Bool
is_stale_ack strict gen none = false
is_stale_ack strict (some g) (some state) = not (g == state.dispatch_gen)
is_stale_ack strict none (some state) = ltb 0 state.dispatch_gen && strict

abbrev pub processing_of : String → Store → Dict Entry
processing_of d s = get_or d s.processing []

pub ack_processing : Bool → String → String → Option ℕ → Store → Store × Bool
unfolding is_stale_ack
ack_processing strict d tid gen s =
    if is_stale_ack strict gen (get tid s.tasks)
    then (s, false)
    else elim (get tid (processing_of d s)) [
      | none ↦ (s, false)
      | some entry ↦ (
        record s {
          processing = put d (remove tid (processing_of d s)) s.processing;
          tasks = change tid (λ state. record state { processing_started_at = none }) s.tasks;
        },
        true,
      )
    ]

-- `now - started > timeout_sec`
pub timed_out : ℕ → ℕ → Entry → Bool
timed_out now timeout e =
    ltb 0 e.processing_started_at && ltb timeout (now - e.processing_started_at)

pub record Recovery : Type 0 where
  pub queue : List ℕ
  pub tasks : Dict TaskState
  pub processing : Dict Entry
  pub count : ℕ

abbrev bump_state : TaskState → TaskState
bump_state state = record state {
  status = "queued";
  dispatch_gen = state.dispatch_gen + 1;
  processing_started_at = none;
}

pub recover_one : String → Entry → Recovery → Recovery
recover_one tid e r = record {
  queue = e.task ∷ r.queue;
  tasks = change tid bump_state r.tasks;
  processing = remove tid r.processing;
  count = r.count + 1;
}

-- The loop over a copy of the table's items.
pub recover_loop : (Entry → Bool) → Dict Entry → Recovery → Recovery
unfolding recover_one
recover_loop late [] r = r
recover_loop late ((tid, e) ∷ items) r =
    recover_loop late items (if late e then recover_one tid e r else r)

recover_items : String → ℕ → ℕ → Dict Entry → Store → Store × ℕ
recover_items d timeout now [] s = (s, 0)
recover_items d timeout now (item ∷ items) s =
    let r =
      recover_loop (timed_out now timeout) (item ∷ items)
        (record { queue = queue_of d s; tasks = s.tasks; processing = item ∷ items; count = 0 }) in
    (
      record s {
        pending = put d r.queue s.pending;
        tasks = r.tasks;
        processing = put d r.processing s.processing;
      },
      r.count,
    )

pub recover_stale_processing : String → ℕ → ℕ → Store → Store × ℕ
unfolding recover_items
recover_stale_processing d timeout now s = recover_items d timeout now (processing_of d s) s

pub total_pending : Dict (List ℕ) → ℕ
total_pending [] = 0
total_pending ((d, queue) ∷ rest) = length queue + total_pending rest

pub pending_count : Option String → Store → ℕ
unfolding total_pending
pending_count (some d) s = length (queue_of d s)
pending_count none s = total_pending s.pending

unfoldable pub increment_retry_count : String → Store → Store × ℕ
increment_retry_count tid s = elim (get tid s.tasks) [
  | none ↦ (s, 0)
  | some state ↦
      let count = state.retry_count + 1 in
      (record s { tasks = put tid (record state { retry_count = count }) s.tasks }, count)
]

unfoldable pub reset_task_for_retry : String → Store → Store
reset_task_for_retry tid s = record s {
  tasks =
      change tid (λ state. record state { status = "queued"; retry_count = state.retry_count + 1 })
        s.tasks;
}

-- The queue without the first task of that id, if it has one.
delete_first : (ℕ → Task) → String → List ℕ → Option (List ℕ)
delete_first heap tid [] = none
delete_first heap tid (r ∷ queue) =
    let rest = delete_first heap tid queue in
    if str_eq (heap r).task_id tid
    then some queue
    else elim rest [ none ↦ none | some queue' ↦ some (r ∷ queue') ]

pub remove_pending_task : String → String → Store → Store × Bool
unfolding delete_first
remove_pending_task d tid s = elim (delete_first s.heap tid (queue_of d s)) [
  | none ↦ (s, false)
  | some queue ↦ (record s { pending = put d queue s.pending }, true)
]

unfoldable pub abandon_processing_task : String → String → Store → Store × Bool
abandon_processing_task d tid s = elim (get tid (processing_of d s)) [
  | none ↦ (s, false)
  | some entry ↦ (
    record s {
      processing = put d (remove tid (processing_of d s)) s.processing;
      tasks =
          change tid
            (λ state. record state { status = "dead_letter"; processing_started_at = none })
            s.tasks;
    },
    true,
  )
]
