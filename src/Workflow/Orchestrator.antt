-- ===== src/Workflow/Orchestrator.antt =====
-- device_workflow/orchestrator.py: `WorkflowOrchestrator` over the in-memory ledger and the thread lock.
-- `uuid4` and the clock are arguments: an operation that appends takes the new event's id and time.
-- `register`'s `task` argument enters by its device id, the only part that is read.
pub mod Replay
pub mod Coherence
pub mod Body
pub mod Advance
pub mod Register
pub mod Chain
pub mod Completed
pub mod Traces
mod Tests
use qwen.Prelude.{
  ℕ, suc, String, Bool, true, false, Option, none, some, List, [], ◌∷◌, reverse, if◌then◌else◌,
  str_eq, length, ◌==◌,
}
use qwen.Prelude.Dict.{Dict, get, put}
use qwen.Motion.{Report}
use qwen.Ledger.{
  EventType, task_created, task_updated, task_dispatched, task_terminal, Payload, LedgerEvent,
  LedgerError, Ledger, record_event,
}
use qwen.Ledger.Projection.{sorted_events, status_after_event, rebuild_state, TaskView}
use qwen.Workflow.State.{
  TaskState, planned, simulated, waiting_approval, ready_to_dispatch, dispatched, running,
  in_progress, recovering, completed, failed, cancelled, value, parse_state, is_allowed,
}
use qwen.Workflow.Lock.{Locks, acquire, release}

pub record Orchestrator : Type 0 where
  pub ledger : Ledger
  pub cache : Dict (ℕ × TaskState)
  pub locks : Locks

pub data WorkflowError : Type 0 where
  locked : WorkflowError
  already_registered : WorkflowError
  unknown_task : WorkflowError
  unknown_state : String → WorkflowError
  invalid_transition : TaskState → TaskState → WorkflowError
  ledger_error : LedgerError → WorkflowError

pub data Result {ℓ} (A : Type ℓ) : Type ℓ where
  ok : A → Result A
  err : WorkflowError → Result A

abbrev keep_state : Option TaskState → Option TaskState → Option TaskState
keep_state none last = last
keep_state (some s) last = some s

-- The loop of `_status_to_task_state`: the last text that is a workflow state.
pub last_state : String → Option TaskState → List LedgerEvent → Option TaskState
last_state current last [] = last
last_state current last (e ∷ es) =
    let current' = status_after_event e current in
    last_state current' (keep_state (parse_state current') last) es

abbrev or_unknown : String → Option TaskState → Result TaskState
or_unknown status none = err (unknown_state status)
or_unknown status (some s) = ok s

-- The state that the events say, with no cache.
pub status_to_task_state : String → List LedgerEvent → Result TaskState
unfolding last_state
status_to_task_state status events = elim (parse_state status) [
  | some s ↦ ok s
  | none ↦ or_unknown status (last_state "unknown" none events)
]

pub replayed_state : String → Ledger → Result TaskState
replayed_state tid l = status_to_task_state (rebuild_state tid l).status (sorted_events tid l)

abbrev store_state : String → ℕ → Result TaskState → Orchestrator → Orchestrator × Result TaskState
store_state tid n (ok s) w = (record w { cache = put tid (n, s) w.cache }, ok s)
store_state tid n (err x) w = (w, err x)

abbrev pub cached : ℕ → Option (ℕ × TaskState) → Option TaskState
cached n none = none
cached n (some (m, s)) = if m == n then some s else none

-- `_current_state`
unfoldable pub current_state : String → Orchestrator → Orchestrator × Result TaskState
current_state tid w =
    let n = (rebuild_state tid w.ledger).event_count in
    if n == 0 then (w, err unknown_task) else elim (cached n (get tid w.cache)) [
      | some s ↦ (w, ok s)
      | none ↦ store_state tid n (replayed_state tid w.ledger) w
    ]

abbrev pub no_report : Report
no_report = record {
  phase = none;
  progress = none;
  error = none;
  error_code = none;
  error_message = none;
}

abbrev pub no_payload : Payload
no_payload = record {
  status = none;
  state = none;
  motion_event = none;
  terminal_event = none;
  top = no_report;
}

pub terminal_phase : TaskState → String
terminal_phase completed = "done"
terminal_phase failed = "failed"
terminal_phase cancelled = "cancelled"
terminal_phase target = value target

abbrev updated_to : TaskState → EventType × Payload
updated_to target = (task_updated, record no_payload { state = some (value target) })

-- The event's type and payload in `_append_advance_event`.
unfoldable pub advance_event : TaskState → EventType × Payload
unfolding terminal_phase
advance_event dispatched = (task_dispatched, no_payload)
advance_event planned = updated_to planned
advance_event simulated = updated_to simulated
advance_event waiting_approval = updated_to waiting_approval
advance_event ready_to_dispatch = updated_to ready_to_dispatch
advance_event running = updated_to running
advance_event in_progress = updated_to in_progress
advance_event recovering = updated_to recovering
advance_event target = (
  task_terminal,
  record no_payload {
    terminal_event = some (record no_report { phase = some (terminal_phase target) });
  },
)

-- An append, and the state read back after it.
unfoldable pub append_and_read :
    LedgerEvent → String → Orchestrator → Orchestrator × Result TaskState
append_and_read e tid w =
    let (l, x) = record_event e w.ledger in
    elim x [
      | some x ↦ (w, err (ledger_error x))
      | none ↦ current_state tid (record w { ledger = l })
    ]

-- The `try … finally` of `register` and `advance`: the body runs under the task's lock.
unfoldable pub with_lock :
    String
    → (Orchestrator → Orchestrator × Result TaskState)
    → Orchestrator
    → Orchestrator × Result TaskState
with_lock tid body w =
    let (locks, got) = acquire tid w.locks in
    if got
    then (let (w', r) = body (record w { locks = locks }) in
        (record w' { locks = release tid w'.locks }, r))
    else (record w { locks = locks }, err locked)

pub register_body :
    String → String → String → String → List ℕ → Orchestrator → Orchestrator × Result TaskState
register_body tid device_id task_device event_id now w = elim (sorted_events tid w.ledger) [
  | e ∷ es ↦ (w, err already_registered)
  | [] ↦
      append_and_read
        (record {
          event_id = event_id;
          event_type = task_created;
          task_id = tid;
          device_id = if str_eq device_id "" then task_device else device_id;
          payload = record no_payload { status = some "created" };
          created_at = now;
        })
        tid w
]

pub register :
    String → String → String → String → List ℕ → Orchestrator → Orchestrator × Result TaskState
register tid device_id task_device event_id now =
    with_lock tid (register_body tid device_id task_device event_id now)

unfoldable pub advance_from :
    String
    → TaskState
    → String
    → List ℕ
    → Orchestrator
    → Result TaskState
    → Orchestrator × Result TaskState
advance_from tid target event_id now w (err x) = (w, err x)
advance_from tid target event_id now w (ok current) =
    if is_allowed current target
    then (let (event_type, payload) = advance_event target in
        append_and_read
          (record {
            event_id = event_id;
            event_type = event_type;
            task_id = tid;
            device_id = (rebuild_state tid w.ledger).device_id;
            payload = payload;
            created_at = now;
          })
          tid w)
    else (w, err (invalid_transition current target))

unfoldable pub advance_body :
    String → TaskState → String → List ℕ → Orchestrator → Orchestrator × Result TaskState
advance_body tid target event_id now w =
    let (w', current) = current_state tid w in advance_from tid target event_id now w' current

unfoldable pub advance :
    String → TaskState → String → List ℕ → Orchestrator → Orchestrator × Result TaskState
advance tid target event_id now = with_lock tid (advance_body tid target event_id now)

unfoldable pub get_state : String → Orchestrator → Orchestrator × Result TaskState
unfolding current_state
get_state = current_state

-- `reset` forgets the cache and keeps the ledger.
pub reset : Orchestrator → Orchestrator
reset w = record w { cache = [] }

abbrev same_state : TaskState → List TaskState → Bool
same_state s [] = false
same_state s (t ∷ rest) = str_eq (value s) (value t)

abbrev push_state : Option TaskState → List TaskState → List TaskState
push_state none states = states
push_state (some s) states = if same_state s states then states else s ∷ states

-- The loop of `history`, the latest state first.
history_loop : String → List TaskState → List LedgerEvent → List TaskState
history_loop current states [] = states
history_loop current states (e ∷ es) =
    let current' = status_after_event e current in
    history_loop current' (push_state (parse_state current') states) es

pub history : String → Orchestrator → Result (List TaskState)
unfolding history_loop
history tid w = elim (sorted_events tid w.ledger) [
  | [] ↦ err unknown_task
  | e ∷ es ↦ ok (reverse (history_loop "unknown" [] (e ∷ es)))
]

pub snapshot : String → Orchestrator → Option TaskView
snapshot tid w = elim (sorted_events tid w.ledger) [
  | [] ↦ none
  | e ∷ es ↦ some (rebuild_state tid w.ledger)
]
