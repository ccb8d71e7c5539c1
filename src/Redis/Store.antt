-- ===== src/Redis/Store.antt =====
-- device_gateway/redis_store.py: the states of the tasks and the lists of tasks, with the task index
-- off. A task id is the number that `task-` is written before.
use qwen.Prelude.{
  ℕ, ◌+◌, String, Bool, ◌&&◌, not, Option, none, some, List, [], ◌∷◌, if◌then◌else◌, str_eq, length,
  leb,
}
use qwen.Prelude.Dict.{Dict, member}
use qwen.Motion.{MotionEvent}
use qwen.Redis.{Task, TaskState, new_state, Server}
use qwen.Redis.Cas.{append_event_atomic}
use qwen.Redis.Processing.{expire_stale_queued}

-- `_ACTIVE_STATUSES`
abbrev pub active_statuses : List String
active_statuses =
    "queued" ∷ "dispatching" ∷ "dispatched" ∷ "running" ∷ "processing" ∷ "progress" ∷ "accepted"
    ∷ []

-- `QUEUED_MAX_AGE_SEC`
abbrev pub queued_max_age : ℕ
queued_max_age = 3600

pub record Summary : Type 0 where
  pub task_id : String
  pub phase : String
  pub event_count : ℕ

pub record Snapshot : Type 0 where
  pub task : Option Task
  pub status : String
  pub retry_count : ℕ
  pub events : List MotionEvent
  pub version : ℕ

pub record Listed : Type 0 where
  pub task_id : String
  pub status : String
  pub capability : String
  pub source : String

unfoldable pub is_active : TaskState → Bool
unfolding member
is_active state = member state.status active_statuses

-- The state's task, if it is one of the device.
abbrev pub task_for : String → TaskState → Option Task
task_for d state = elim state.task [
  | none ↦ none
  | some t ↦ if str_eq t.device_id d then some t else none
]

-- `_active_tasks_hgetall`
unfoldable pub active_tasks : String → Dict TaskState → List Task
active_tasks d [] = []
active_tasks d ((tid, state) ∷ states) =
    let rest = active_tasks d states in
    elim (task_for d state) [ none ↦ rest | some t ↦ if is_active state then t ∷ rest else rest ]

-- The loop of `_list_tasks_hgetall`, with the number of tasks found.
unfoldable pub list_tasks : String → String → ℕ → ℕ → Dict TaskState → List Listed
list_tasks d status limit found [] = []
list_tasks d status limit found ((tid, state) ∷ states) =
    let skipped = list_tasks d status limit found states in
    let rest = list_tasks d status limit (found + 1) states in
    elim (task_for d state) [
      | none ↦ skipped
      | some t ↦
          if not (str_eq status "") && not (str_eq state.status status)
          then skipped
          else record {
            task_id = t.task_id;
            status = state.status;
            capability = t.capability;
            source = t.source;
          }
            ∷ (if leb limit (found + 1) then [] else rest)
    ]

-- The loop of `list_inflight_task_ids`.
unfoldable pub inflight : ℕ → ℕ → Dict TaskState → List String
inflight limit found [] = []
inflight limit found ((tid, state) ∷ states) =
    let skipped = inflight limit found states in
    let rest = inflight limit (found + 1) states in
    if is_active state then tid ∷ (if leb limit (found + 1) then [] else rest) else skipped

module _ (r : Server) where
  open r use {State, hget, hset, hgetall, incr}

  unfoldable pub next_task_id : State → State × ℕ
  next_task_id s = incr s

  unfoldable pub create_task_state : Task → String → State → State
  create_task_state t status s = hset t.task_id (new_state (some t) status) s

  -- An event of an unknown task makes a state with no task.
  unfoldable pub record_motion_event : MotionEvent → State → State × Summary
  record_motion_event event s =
      let (s', state) = append_event_atomic r event.task_id event event.phase s in
      let made = record (new_state none event.phase) { events = event ∷ [] } in
      let summary : ℕ → Summary =
        λ n. record { task_id = event.task_id; phase = event.phase; event_count = n } in
      elim state [
        | none ↦ (hset event.task_id made s', summary 1)
        | some updated ↦ (s', summary (length updated.events))
      ]

  unfoldable pub task_snapshot : String → State → Option Snapshot
  task_snapshot tid s = elim (hget tid s) [
    | none ↦ none
    | some state ↦ some (record {
      task = state.task;
      status = state.status;
      retry_count = state.retry_count;
      events = state.events;
      version = state.version;
    })
  ]

  unfoldable pub active_tasks_for_device : String → ℕ → State → State × List Task
  active_tasks_for_device d now s =
      let s' = (expire_stale_queued r d queued_max_age now s).0 in (s', active_tasks d (hgetall s'))

  unfoldable pub list_tasks_for_device : String → String → ℕ → State → List Listed
  list_tasks_for_device d status limit s = list_tasks d status limit 0 (hgetall s)

  unfoldable pub list_inflight_task_ids : ℕ → State → List String
  list_inflight_task_ids limit s = inflight limit 0 (hgetall s)
