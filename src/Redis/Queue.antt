-- ===== src/Redis/Queue.antt =====
-- device_gateway/redis_store_queue.py, the methods that put tasks into a device's queue and take them
-- out of it, and the helpers that they use of redis_store_helpers.py. A method gets the answer of the
-- server's clock as `now`.
pub mod Enqueue
pub mod Pop
mod Tests
use qwen.Prelude.{
  ℕ, zero, suc, ◌+◌, String, Bool, true, false, ◌&&◌, not, Option, none, some, List, [], ◌∷◌, ◌++◌,
  reverse, ◌==◌, if◌then◌else◌, str_eq, length, ltb,
}
use qwen.Prelude.Dict.{member}
use qwen.Redis.{Task, Item, item, corrupt, TaskState, new_state, Key, pending, processing, Server}
use qwen.Redis.Cas.{cas_update}

-- `_ALLOWED_TASK_CAPABILITIES`
abbrev allowed_capabilities : List String
allowed_capabilities =
    "run_path" ∷ "write_text" ∷ "draw_generated" ∷ "draw_image" ∷ "draw_from_image" ∷ "handwriting"
    ∷ "home" ∷ "move_abs" ∷ "move_rel" ∷ "pause" ∷ "resume" ∷ "stop" ∷ "estop" ∷ "get_device_info"
    ∷ []

-- `validate_capability_params` of path_validator.py, on the capability and the params of a task: whether
-- it finds no error, or `none` where it raises, at an int beyond the floats.
abbrev pub ParamsCheck : Type 0
ParamsCheck = String → ℕ → Option Bool

unfoldable pub validate_task_schema : ParamsCheck → Task → Option Bool
unfolding member
validate_task_schema params_ok t =
    if not (member t.capability allowed_capabilities)
    then some false
    else if str_eq t.task_id ""
    then some false
    else if str_eq t.device_id ""
    then some false
    else params_ok t.capability t.params

abbrev pub set_task : Task → String → TaskState → TaskState
set_task t status state = record state { task = some t; status = status }

abbrev pub mark_failed : TaskState → TaskState
mark_failed state = record state { status = "failed"; error = some "sec06_capability_rejected" }

-- `_dispatch` of `pop_pending_tasks`
abbrev pub dispatch : Task → ℕ → TaskState → TaskState
dispatch t started state = record (set_task t "dispatching" state) {
  processing_started_at = started;
  recovered_at = none;
}

abbrev pub without_start : TaskState → TaskState
without_start state = record state { processing_started_at = 0 }

abbrev pub gen_of : Option TaskState → ℕ
gen_of none = 0
gen_of (some state) = state.dispatch_gen

abbrev pub requeue : Task → TaskState → TaskState
requeue t state = without_start (set_task t "queued" state)

abbrev pub mark_dispatched : TaskState → TaskState
mark_dispatched state = record state { status = "dispatched" }

abbrev pub count_retry : TaskState → TaskState
count_retry state = record state { retry_count = state.retry_count + 1 }

abbrev pub reset_for_retry : TaskState → TaskState
reset_for_retry state = record state { status = "queued"; retry_count = state.retry_count + 1 }

module _ (r : Server) where
  open r use {State, lrange, rpush, lpush, lrem_one, lmove, scan_pending}

  unfoldable pub enqueue_pending_task : String → ℕ → Task → State → State × ℕ
  enqueue_pending_task d now task s =
      let t = record task { enqueued_at = now } in
      let s' = rpush (pending d) (item t) s in
      let default = new_state (some t) "created" in
      (
        (cas_update r t.task_id (set_task t "queued") (some default) s').0,
        length (lrange (pending d) s'),
      )

  -- `_lmove_many`
  unfoldable pub lmove_many : ℕ → Key → Key → State → State × List Item
  lmove_many zero src dst s = (s, [])
  lmove_many (suc limit) src dst s =
      let rest = lmove_many limit src dst (lmove src dst s).0 in
      elim (lmove src dst s).1 [ none ↦ ((lmove src dst s).0, []) | some x ↦ (rest.0, x ∷ rest.1) ]

  -- A task that may not go to the firmware leaves the processing list, and its state is failed.
  unfoldable pub drop_task : String → Task → State → State
  drop_task d t s =
      let s' = (lrem_one (processing d) (item t) s).0 in
      if str_eq t.task_id "" then s' else (cas_update r t.task_id mark_failed none s').0

  abbrev pub keep_task : Task → State × Option (List Task) → State × Option (List Task)
  keep_task t (s, none) = (s, none)
  keep_task t (s, some ts) = (s, some (t ∷ ts))

  -- `_gate_popped_tasks`; `none` where it raises, at an item that is no JSON object or whose params the
  -- validation cannot compare.
  unfoldable pub gate_popped_tasks :
      ParamsCheck → String → List Item → State → State × Option (List Task)
  gate_popped_tasks params_ok d [] s = (s, some [])
  gate_popped_tasks params_ok d (corrupt x ∷ items) s = (s, none)
  gate_popped_tasks params_ok d (item t ∷ items) s =
      let kept = gate_popped_tasks params_ok d items s in
      let dropped = gate_popped_tasks params_ok d items (drop_task d t s) in
      elim (validate_task_schema params_ok t) [
        | none ↦ (s, none)
        | some true ↦ keep_task t kept
        | some false ↦ dropped
      ]

  -- The loop of `pop_pending_tasks` over the tasks that are left.
  unfoldable pub dispatch_tasks : ℕ → List Task → State → State × List Task
  dispatch_tasks started [] s = (s, [])
  dispatch_tasks started (t ∷ ts) s =
      let default = new_state (some t) "queued" in
      let (s', state) = cas_update r t.task_id (dispatch t started) (some default) s in
      let rest = dispatch_tasks started ts s' in
      (rest.0, record t { dispatch_gen = some (gen_of state) } ∷ rest.1)

  abbrev pub dispatch_gated : ℕ → State × Option (List Task) → State × Option (List Task)
  dispatch_gated now (s, none) = (s, none)
  dispatch_gated now (s, some tasks) =
      let (s', stamped) = dispatch_tasks now tasks s in (s', some stamped)

  unfoldable pub pop_pending_tasks :
      ParamsCheck → String → ℕ → ℕ → State → State × Option (List Task)
  pop_pending_tasks params_ok d limit now s =
      let (s', items) = lmove_many limit (pending d) (processing d) s in
      dispatch_gated now (gate_popped_tasks params_ok d items s')

  remove_item : Key → String → List Item → State → State × Bool
  remove_item q tid [] s = (s, false)
  remove_item q tid (corrupt x ∷ items) s = remove_item q tid items s
  remove_item q tid (item t ∷ items) s =
      let rest = remove_item q tid items s in
      if str_eq t.task_id tid then (let (s', n) = lrem_one q (item t) s in (s', ltb 0 n)) else rest

  -- `_remove_processing_task`
  unfoldable pub remove_processing_task : String → String → State → State × Bool
  unfolding remove_item
  remove_processing_task d tid s = remove_item (processing d) tid (lrange (processing d) s) s

  unfoldable pub remove_pending_task : String → String → State → State × Bool
  unfolding remove_item
  remove_pending_task d tid s = remove_item (pending d) tid (lrange (pending d) s) s

  abbrev pub each : (Task → State → State) → List Task → State → State
  each f [] s = s
  each f (t ∷ ts) s = each f ts (f t s)

  sum_lengths : List String → State → ℕ
  sum_lengths [] s = 0
  sum_lengths (d ∷ ds) s = length (lrange (pending d) s) + sum_lengths ds s

  unfoldable pub pending_count : Option String → State → ℕ
  unfolding sum_lengths
  pending_count (some d) s = length (lrange (pending d) s)
  pending_count none s = sum_lengths (scan_pending s) s

  -- `LPUSH` of several items pushes them one after the other.
  unfoldable pub requeue_pending_tasks : String → List Task → State → State × ℕ
  requeue_pending_tasks d [] s = (s, length (lrange (pending d) s))
  requeue_pending_tasks d (t ∷ ts) s =
      let tasks = t ∷ ts in
      let removed = each (λ t s. (remove_processing_task d t.task_id s).0) tasks s in
      let pushed = each (λ t s. lpush (pending d) (item t) s) (reverse tasks) removed in
      let update = λ (t : Task) (s : State).
        (cas_update r t.task_id (requeue t) (some (new_state (some t) "created")) s).0 in
      (each update tasks pushed, length (lrange (pending d) pushed))

  unfoldable pub mark_task_dispatched : String → State → State
  mark_task_dispatched tid s = (cas_update r tid mark_dispatched none s).0

  -- `result_holder[0]`, when no other client writes in between.
  unfoldable pub increment_retry_count : String → State → State × ℕ
  increment_retry_count tid s =
      let (s', state) = cas_update r tid count_retry none s in
      (s', elim state [ none ↦ 0 | some state ↦ state.retry_count ])

  unfoldable pub reset_task_for_retry : String → State → State
  reset_task_for_retry tid s = (cas_update r tid reset_for_retry none s).0
