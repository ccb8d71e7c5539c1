-- ===== src/TaskStore.antt =====
-- device_gateway/memory_store.py: `InMemoryDeviceTaskStore`. Every method runs under the store's lock,
-- so it is one function from the store to the new store and the method's result.
-- A task dict is an object that the queues, the processing table, the task table and the caller share:
-- it is a reference into `heap`, and a write through one of them is seen through all.
-- Times are whole microseconds of `time.time()`; a stamp that is missing is 0, which the code reads so.
pub mod Delivery
use qwen.Prelude.{
  ℕ, suc, ◌≡◌, ◌+◌, ◌-◌, String, Bool, true, false, ◌&&◌, ◌||◌, Option, none, some, List, [], ◌∷◌,
  ◌++◌, ltb, leb, ◌==◌, if◌then◌else◌, str_eq, length, take,
}
use qwen.Prelude.Dict.{Dict, member, get, put, remove, get_or, get_or-put, get_or-remove}
use qwen.Motion.{MotionEvent}

pub record Task : Type 0 where
  pub task_id : String
  pub device_id : String
  pub capability : String
  pub source : String
  pub enqueued_at : ℕ  -- `_enqueued_at`
  pub dispatch_gen : Option ℕ  -- `_dispatch_gen`

-- An entry of `_tasks`; `retry_count` and `dispatch_gen` are 0 where the key is missing.
pub record TaskState : Type 0 where
  pub task : Option ℕ
  pub status : String
  pub events : List MotionEvent
  pub retry_count : ℕ
  pub dispatch_gen : ℕ
  pub processing_started_at : Option ℕ

pub record Entry : Type 0 where
  pub task : ℕ
  pub processing_started_at : ℕ

pub record Store : Type 0 where
  pub counter : ℕ
  pub heap : ℕ → Task
  pub tasks : Dict TaskState
  pub pending : Dict (List ℕ)
  pub processing : Dict (Dict Entry)

abbrev pub update : (ℕ → Task) → ℕ → Task → ℕ → Task
update heap r t q = if q == r then t else heap q

abbrev pub new_state : Option ℕ → String → TaskState
new_state task status = record {
  task = task;
  status = status;
  events = [];
  retry_count = 0;
  dispatch_gen = 0;
  processing_started_at = none;
}

abbrev pub queue_of : String → Store → List ℕ
queue_of d s = get_or d s.pending []

-- `_ACTIVE_STATUSES` and `QUEUED_MAX_AGE_SEC` of redis_store_helpers.py
abbrev active_statuses : List String
active_statuses =
    "queued" ∷ "dispatching" ∷ "dispatched" ∷ "running" ∷ "processing" ∷ "progress" ∷ "accepted"
    ∷ []

abbrev pub queued_max_age : ℕ
queued_max_age = 3600000000

pub init : (ℕ → Task) → Store
init heap = record { counter = 1; heap = heap; tasks = []; pending = []; processing = [] }

pub reset : Store → Store
reset s = record s { counter = 1; tasks = []; pending = []; processing = [] }

-- The text format `task-{n:06d}` is Python's, and an argument.
unfoldable pub next_task_id : (ℕ → String) → Store → Store × String
next_task_id format s = (record s { counter = s.counter + 1 }, format s.counter)

unfoldable pub create_task_state : ℕ → String → Store → Store
create_task_state r status s = record s {
  tasks = put (s.heap r).task_id (new_state (some r) status) s.tasks;
}

pub record Summary : Type 0 where
  pub task_id : String
  pub phase : String
  pub event_count : ℕ

pub record_motion_event : MotionEvent → Store → Store × Summary
record_motion_event e s =
    let state = get_or e.task_id s.tasks (new_state none "unknown") in
    let events = state.events ++ e ∷ [] in
    (
      record s {
        tasks = put e.task_id (record state { status = e.phase; events = events }) s.tasks;
      },
      record { task_id = e.task_id; phase = e.phase; event_count = length events },
    )

pub record Snapshot : Type 0 where
  pub task : Option Task
  pub status : String
  pub retry_count : ℕ
  pub events : List MotionEvent

abbrev read_task : (ℕ → Task) → Option ℕ → Option Task
read_task heap none = none
read_task heap (some r) = some (heap r)

unfoldable pub task_snapshot : String → Store → Option Snapshot
task_snapshot tid s = elim (get tid s.tasks) [
  | none ↦ none
  | some state ↦ some (record {
    task = read_task s.heap state.task;
    status = state.status;
    retry_count = state.retry_count;
    events = state.events;
  })
]

-- `now - enqueued_at > max_age_sec`; a clock that went back gives 0 here and no expiry in both.
pub is_stale : ℕ → ℕ → ℕ → Bool
is_stale now max_age at = ltb 0 at && ltb max_age (now - at)

mark_expired : String → Dict TaskState → Dict TaskState
mark_expired tid tasks = elim (get tid tasks) [
  | none ↦ tasks
  | some state ↦
      if str_eq state.status "queued"
      then put tid (record state { status = "expired" }) tasks
      else tasks
]

-- The loop over the queue: the task table, the tasks kept and the number expired.
expire_loop : (Task → Bool) → (ℕ → Task) → List ℕ → Dict TaskState → Dict TaskState × List ℕ × ℕ
expire_loop stale heap [] tasks = (tasks, [], 0)
expire_loop stale heap (r ∷ queue) tasks =
    let (tasks', kept, count) =
      expire_loop stale heap queue
        (if stale (heap r) then mark_expired (heap r).task_id tasks else tasks) in
    if stale (heap r) then (tasks', kept, suc count) else (tasks', r ∷ kept, count)

-- An empty queue leaves the table.
abbrev keep_queue : String → List ℕ → Dict (List ℕ) → Dict (List ℕ)
keep_queue d [] pending = remove d pending
keep_queue d (r ∷ queue) pending = put d (r ∷ queue) pending

pub keep_queue_lem :
    (d e : String) (queue : List ℕ) (pending : Dict (List ℕ))
    → get_or e (keep_queue d queue pending) [] ≡ (if str_eq d e then queue else get_or e pending [])
keep_queue_lem d e [] pending = get_or-remove d e [] pending
keep_queue_lem d e (r ∷ queue) pending = get_or-put d e (r ∷ queue) [] pending

expire_queue : String → ℕ → ℕ → List ℕ → Store → Store × ℕ
expire_queue d max_age now [] s = (s, 0)
expire_queue d max_age now (r ∷ queue) s =
    let (tasks, kept, count) =
      expire_loop (λ t. is_stale now max_age t.enqueued_at) s.heap (r ∷ queue) s.tasks in
    (record s { tasks = tasks; pending = keep_queue d kept s.pending }, count)

pub expire_stale_queued : String → ℕ → ℕ → Store → Store × ℕ
unfolding expire_queue
expire_stale_queued d max_age now s = expire_queue d max_age now (queue_of d s) s

collect_active : (ℕ → Task) → String → Dict TaskState → List Task
unfolding member
collect_active heap d [] = []
collect_active heap d ((tid, state) ∷ rest) =
    let others = collect_active heap d rest in
    elim state.task [
      | none ↦ others
      | some r ↦
          if str_eq (heap r).device_id d && member state.status active_statuses
          then heap r ∷ others
          else others
    ]

pub active_tasks_for_device : String → ℕ → Store → Store × List Task
unfolding collect_active
active_tasks_for_device d now s =
    let s' = (expire_stale_queued d queued_max_age now s).0 in
    (s', collect_active s'.heap d s'.tasks)

list_for_device : (ℕ → Task) → String → String → Dict TaskState → List (Task × String)
list_for_device heap d status [] = []
list_for_device heap d status ((tid, state) ∷ rest) =
    let others = list_for_device heap d status rest in
    elim state.task [
      | none ↦ others
      | some r ↦
          if str_eq (heap r).device_id d && (str_eq status "" || str_eq state.status status)
          then (heap r, state.status) ∷ others
          else others
    ]

-- Each task listed, with its status.
pub list_tasks_for_device : String → String → ℕ → Store → List (Task × String)
unfolding list_for_device
list_tasks_for_device d status limit s = take limit (list_for_device s.heap d status s.tasks)

-- The limit is read after an id is taken, so a limit of 0 still gives one.
collect_inflight : ℕ → ℕ → Dict TaskState → List String
unfolding member
collect_inflight limit taken [] = []
collect_inflight limit taken ((tid, state) ∷ rest) =
    let more = collect_inflight limit (suc taken) rest in
    let others = collect_inflight limit taken rest in
    if member state.status active_statuses
    then (if leb limit (suc taken) then tid ∷ [] else tid ∷ more)
    else others

pub list_inflight_task_ids : ℕ → Store → List String
unfolding collect_inflight
list_inflight_task_ids limit s = collect_inflight limit 0 s.tasks
