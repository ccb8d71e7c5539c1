-- ===== src/Ledger/Projection.antt =====
-- device_ledger/projection.py: the state of a task, replayed from its events in the order of their
-- times.
use qwen.Prelude.{ℕ, String, Bool, Option, none, some, List, [], ◌∷◌, if◌then◌else◌, str_eq, length}
use qwen.Prelude.Sort.{sort, text_leb}
use qwen.Motion.{Report, EventError, coded}
use qwen.Ledger.{
  EventType, task_created, task_updated, task_dispatched, motion_event, task_terminal,
  task_acknowledged, task_progress, task_paused, task_resumed, Payload, LedgerEvent, Ledger,
  events_for_task,
}

abbrev pub or_else {ℓ} : {A : Type ℓ} → Option A → A → A
or_else none d = d
or_else (some a) d = a

-- `created_at or ""` of the one against the other's.
abbrev pub earlier : LedgerEvent → LedgerEvent → Bool
earlier a b = text_leb a.created_at b.created_at

unfoldable pub sorted_events : String → Ledger → List LedgerEvent
sorted_events tid l = sort earlier (events_for_task tid l)

-- `payload.get("motion_event") or payload.get("terminal_event") or payload`
abbrev pub source_of : Payload → Report
source_of p = or_else p.motion_event (or_else p.terminal_event p.top)

unfoldable pub payload_phase : Payload → String
payload_phase p = or_else (source_of p).phase ""

unfoldable pub status_by_type : EventType → Payload → String → String
unfolding payload_phase
status_by_type task_created p current = or_else p.status "created"
status_by_type task_updated p current = or_else p.state current
status_by_type task_dispatched p current = "dispatched"
status_by_type task_acknowledged p current = "acknowledged"
status_by_type task_progress p current = "running"
status_by_type task_paused p current = "paused"
status_by_type task_resumed p current = "resumed"
status_by_type motion_event p current =
    if str_eq (payload_phase p) "" then current else payload_phase p
status_by_type task_terminal p current =
    if str_eq (payload_phase p) "" then current else payload_phase p
status_by_type _ p current = current

unfoldable pub status_after_event : LedgerEvent → String → String
unfolding status_by_type
status_after_event e current = status_by_type e.event_type e.payload current

abbrev progress_of : Option Report → Option ℕ
progress_of none = none
progress_of (some r) = r.progress

event_progress : EventType → Payload → Option ℕ
event_progress task_progress p = p.top.progress
event_progress motion_event p = progress_of p.motion_event
event_progress _ p = none

report_error : Report → Option EventError
report_error r = elim r.error [
  | some e ↦ some e
  | none ↦ elim r.error_code [
    | some c ↦ some (coded (some c) r.error_message)
    | none ↦ elim r.error_message [ some m ↦ some (coded none (some m)) | none ↦ none ]
  ]
]

event_error : EventType → Payload → Option EventError
unfolding report_error
event_error motion_event p = report_error (source_of p)
event_error task_terminal p = report_error (source_of p)
event_error _ p = none

pub record TaskView : Type 0 where
  pub device_id : String
  pub status : String
  pub progress : ℕ
  pub error : Option EventError
  pub created_at : List ℕ
  pub last_event_at : List ℕ
  pub event_count : ℕ

abbrev first_stamp : List ℕ → List ℕ → List ℕ
first_stamp [] now = now
first_stamp (c ∷ cs) now = c ∷ cs

abbrev last_stamp : List ℕ → List ℕ → List ℕ
last_stamp old [] = old
last_stamp old (c ∷ cs) = c ∷ cs

abbrev some_or : Option EventError → Option EventError → Option EventError
some_or none old = old
some_or (some e) old = some e

-- One round of the loop of `rebuild_state`.
unfoldable pub view_event : TaskView → LedgerEvent → TaskView
unfolding status_after_event event_progress event_error
view_event v e = record v {
  device_id = if str_eq e.device_id "" then v.device_id else e.device_id;
  status = status_after_event e v.status;
  progress = or_else (event_progress e.event_type e.payload) v.progress;
  error = some_or (event_error e.event_type e.payload) v.error;
  created_at = first_stamp v.created_at e.created_at;
  last_event_at = last_stamp v.last_event_at e.created_at;
}

unfoldable pub view_events : TaskView → List LedgerEvent → TaskView
view_events v [] = v
view_events v (e ∷ es) = view_events (view_event v e) es

abbrev pub blank_view : ℕ → TaskView
blank_view n = record {
  device_id = "";
  status = "unknown";
  progress = 0;
  error = none;
  created_at = [];
  last_event_at = [];
  event_count = n;
}

unfoldable pub rebuild_state : String → Ledger → TaskView
unfolding view_events
rebuild_state tid l =
    let events = sorted_events tid l in view_events (blank_view (length events)) events
