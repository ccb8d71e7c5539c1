-- ===== src/Events.antt =====
-- device_gateway/task_events.py: a motion event goes to the task store, the workflow and the ledger;
-- a failed task is queued again while its error allows a retry.
-- The stores that only take a record (artifacts, route evidence, memory, notifications) are not under
-- the modelled state: what they are given is a list of effects. `dispatch_notification_later` is taken
-- to be there.
pub mod Terminal
pub mod Retries
mod Tests
use qwen.Prelude.{
  ℕ, suc, ◌+◌, String, Bool, true, false, ◌&&◌, ◌||◌, not, Option, none, some, List, [], ◌∷◌, ◌++◌,
  if◌then◌else◌, str_eq,
}
use qwen.Prelude.Dict.{member, get}
use qwen.Motion.{MotionEvent, EventError, text, coded, report_of}
use qwen.TaskStore
use qwen.TaskStore.{Store, Task, Summary, Snapshot, task_snapshot, update}
use qwen.TaskStore.Delivery.{reset_task_for_retry, enqueue_pending_task, ack_processing}
use qwen.Ledger.{
  EventType, motion_event, task_terminal, LedgerEvent, Payload, LedgerError, record_event,
}
use qwen.Workflow.State.{TaskState, dispatched, in_progress, completed, failed, cancelled}
use qwen.Workflow.Orchestrator.{Orchestrator, Result, ok, err, no_payload, advance}
use qwen.Recovery.{ActionName, retry, stop, is_retry, recovery_action, should_retry}

-- A call of a store that is not modelled, by its task.
pub data Effect : Type 0 where
  put_artifact consumed_route_evidence memory_extraction : String → Effect
  notification : String → String → String → Effect  -- device, event type, task

pub record Gateway : Type 0 where
  pub store : Store
  pub workflow : Orchestrator
  pub effects : List Effect

-- The id and the time of a new ledger event.
pub record Stamp : Type 0 where
  pub event_id : String
  pub now : List ℕ

-- The stamps of the events that one motion event can append.
pub record Stamps : Type 0 where
  pub of_advance : Stamp
  pub of_motion : Stamp
  pub of_terminal : Stamp

-- `TERMINAL_PHASES`
unfoldable pub is_terminal_phase : String → Bool
unfolding member
is_terminal_phase phase = member phase ("done" ∷ "failed" ∷ "cancelled" ∷ [])

-- `state_map`
abbrev state_map : List (String × TaskState)
state_map =
    ("accepted", dispatched)
    ∷ ("running", in_progress)
    ∷ ("done", completed)
    ∷ ("failed", failed)
    ∷ ("cancelled", cancelled)
    ∷ []

unfoldable pub target_of : String → Option TaskState
unfolding get
target_of phase = get phase state_map

abbrev is_ok {ℓ} : {A : Type ℓ} → Result A → Bool
is_ok (ok a) = true
is_ok (err x) = false

-- `_advance_workflow_on_event`; every exception of the advance is caught.
pub advance_workflow_on_event : String → String → Stamp → Orchestrator → Orchestrator × Bool
advance_workflow_on_event tid phase stamp w =
    if str_eq tid "" then (w, false) else elim (target_of phase) [
      | none ↦ (w, false)
      | some target ↦ let (w', r) = advance tid target stamp.event_id stamp.now w in (w', is_ok r)
    ]

-- The ledger's event for the motion event itself. Its `recovery` key is read by no code here.
abbrev pub motion_entry : MotionEvent → Stamp → LedgerEvent
motion_entry e stamp = record {
  event_id = stamp.event_id;
  event_type = motion_event;
  task_id = e.task_id;
  device_id = e.device_id;
  payload = record no_payload { motion_event = some (report_of e) };
  created_at = stamp.now;
}

abbrev pub terminal_entry : MotionEvent → Stamp → LedgerEvent
terminal_entry e stamp = record {
  event_id = stamp.event_id;
  event_type = task_terminal;
  task_id = e.task_id;
  device_id = e.device_id;
  payload = record no_payload { terminal_event = some (report_of e) };
  created_at = stamp.now;
}

-- `_try_dispatch_terminal_notification`
notifications : MotionEvent → List Effect
notifications e =
    if str_eq e.device_id ""
    then []
    else if str_eq e.phase "done"
    then notification e.device_id "task_completed" e.task_id ∷ []
    else if str_eq e.phase "failed"
    then notification e.device_id "task_failed" e.task_id ∷ []
    else []

terminal_effects : MotionEvent → List Effect
terminal_effects e =
    put_artifact e.task_id
    ∷ consumed_route_evidence e.task_id
    ∷ memory_extraction e.task_id
    ∷ notifications e

pub data Outcome {ℓ} (A : Type ℓ) : Type ℓ where
  returned : A → Outcome A
  raised : LedgerError → Outcome A

-- An append, and what follows unless it raises.
pub then_append :
    {A : Type 0} → LedgerEvent → (Gateway → Gateway × Outcome A) → Gateway → Gateway × Outcome A
then_append e rest g =
    let (l, x) = record_event e g.workflow.ledger in
    elim x [
      | some x ↦ (g, raised x)
      | none ↦ rest (record g { workflow = record g.workflow { ledger = l } })
    ]

finish : MotionEvent → Summary → Gateway → Gateway × Outcome Summary
finish e summary g = (record g { effects = g.effects ++ terminal_effects e }, returned summary)

-- What follows the append of the motion event.
after_motion : MotionEvent → Stamps → Bool → Summary → Gateway → Gateway × Outcome Summary
after_motion e stamps advanced summary g =
    if is_terminal_phase e.phase
    then (if advanced
        then finish e summary g
        else then_append (terminal_entry e stamps.of_terminal) (finish e summary) g)
    else (g, returned summary)

pub record_motion_event : MotionEvent → Stamps → Gateway → Gateway × Outcome Summary
record_motion_event e stamps g =
    let (store, summary) = TaskStore.record_motion_event e g.store in
    let (w, advanced) = advance_workflow_on_event e.task_id e.phase stamps.of_advance g.workflow in
    then_append (motion_entry e stamps.of_motion) (after_motion e stamps advanced summary)
      (record g { store = store; workflow = w })

abbrev or_blank : Option String → String
or_blank none = ""
or_blank (some code) = code

-- The error code that `execute_recovery` acts on, if it acts; a dict `error` has a key, so it is true.
unfoldable pub recovery_code : MotionEvent → Option String
recovery_code e = elim e.error [
  | some (coded code message) ↦ if str_eq e.phase "failed" then some (or_blank code) else none
  | some (text error) ↦
      if not (str_eq error "")
      then (if str_eq e.phase "failed" then some error else none)
      else if not (str_eq (or_blank e.error_code) "")
      then e.error_code
      else none
  | none ↦ if not (str_eq (or_blank e.error_code) "") then e.error_code else none
]

pub record RecoveryResult : Type 0 where
  pub action : ActionName
  pub attempt : ℕ
  pub task : Option Task

abbrev attempt_of : Option Snapshot → ℕ
attempt_of none = 0
attempt_of (some snapshot) = snapshot.retry_count

abbrev task_of : Option Snapshot → Option Task
task_of none = none
task_of (some snapshot) = snapshot.task

-- The retry's task is the snapshot's copy, a new object at `r`.
enqueue_copy : String → ℕ → ℕ → Option Task → Store → Store
enqueue_copy d r now none s = s
enqueue_copy d r now (some task) s =
    (enqueue_pending_task d r now (record s { heap = update s.heap r task })).0

-- The branch on `can_retry`. The result is also what `record_recovery_route_evidence` is given.
pub recover_code :
    (String → String) → String → String → String → ℕ → ℕ → Store → Store × RecoveryResult
unfolding enqueue_copy
recover_code normal code tid d r now s =
    let snapshot = task_snapshot tid s in
    let attempt = attempt_of snapshot in
    let action = (recovery_action normal code).action in
    if is_retry action && should_retry normal code attempt
    then (
      enqueue_copy d r now (task_of snapshot) (reset_task_for_retry tid s),
      record { action = retry; attempt = attempt + 1; task = task_of snapshot },
    )
    else (
      s,
      record {
        action = if is_retry action then stop else action;
        attempt = 1;
        task = task_of snapshot;
      },
    )

pub execute_recovery :
    (String → String)
    → String
    → String
    → MotionEvent
    → ℕ
    → ℕ
    → Store
    → Store × Option RecoveryResult
execute_recovery normal tid d e r now s = elim (recovery_code e) [
  | none ↦ (s, none)
  | some code ↦ let (s', result) = recover_code normal code tid d r now s in (s', some result)
]
