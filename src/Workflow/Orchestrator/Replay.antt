-- ===== src/Workflow/Orchestrator/Replay.antt =====
-- The state that a task's events say, and how one more event changes it.
use qwen.Prelude.{
  String, ◌≡◌, refl, ap, ◌∙◌, true, false, Option, none, some, List, [], ◌∷◌, ◌++◌, arith,
  if◌then◌else◌, str_eq, eq_refl, length, select-append, All, Bool-cases, Option-cases, inl, inr,
}
use mathlib.Core.List.{append-nil}
use qwen.Prelude.Dict.{member}
use qwen.Prelude.Sort.{sort-append, length-sort}
use qwen.Ledger.{LedgerEvent, Ledger, record_event, events_for_task}
use qwen.Ledger.Projection.{
  TaskView, view_event, view_events, blank_view, earlier, sorted_events, status_after_event,
  rebuild_state,
}
use qwen.Workflow.State.{TaskState, parse_state, value}
use qwen.Workflow.Orchestrator.{
  keep_state, last_state, or_unknown, status_to_task_state, replayed_state,
}

-- The status text after a list of events.
unfoldable pub final_status : String → List LedgerEvent → String
final_status current [] = current
final_status current (e ∷ es) = final_status (status_after_event e current) es

status-view_events :
    (v : TaskView) (es : List LedgerEvent) → (view_events v es).status ≡ final_status v.status es
unfolding view_events view_event final_status
status-view_events v [] = refl
status-view_events v (e ∷ es) = status-view_events (view_event v e) es

event_count-view_events :
    (v : TaskView) (es : List LedgerEvent) → (view_events v es).event_count ≡ v.event_count
unfolding view_events view_event
event_count-view_events v [] = refl
event_count-view_events v (e ∷ es) = event_count-view_events (view_event v e) es

pub final_status-append :
    (current : String) (es : List LedgerEvent) (e : LedgerEvent)
    → final_status current (es ++ e ∷ []) ≡ status_after_event e (final_status current es)
unfolding final_status
final_status-append current [] e = refl
final_status-append current (x ∷ es) e = final_status-append (status_after_event x current) es e

pub last_state-append :
    (current : String) (last : Option TaskState) (es : List LedgerEvent) (e : LedgerEvent)
    → last_state current last (es ++ e ∷ [])
      ≡ keep_state
          (parse_state (status_after_event e (final_status current es)))
          (last_state current last es)
unfolding last_state final_status
last_state-append current last [] e = refl
last_state-append current last (x ∷ es) e =
    last_state-append (status_after_event x current)
      (keep_state (parse_state (status_after_event x current)) last) es e

keep_state_idem : (o last : Option TaskState) → keep_state o (keep_state o last) ≡ keep_state o last
keep_state_idem none last = refl
keep_state_idem (some s) last = refl

last_state_keeps :
    (current : String) (last : Option TaskState) (es : List LedgerEvent)
    → keep_state (parse_state current) last ≡ last
    → keep_state (parse_state (final_status current es)) (last_state current last es)
      ≡ last_state current last es
unfolding last_state final_status
last_state_keeps current last [] h = h
last_state_keeps current last (e ∷ es) h =
    last_state_keeps (status_after_event e current) _ es
      (keep_state_idem (parse_state (status_after_event e current)) last)

-- The last status of the events that is a workflow state.
unfoldable pub workflow_state : List LedgerEvent → Option TaskState
workflow_state es = last_state "unknown" none es

parse-unknown : parse_state "unknown" ≡ none
unfolding parse_state value
parse-unknown = refl

pub status_to_task_state_lem :
    (es : List LedgerEvent)
    → status_to_task_state (final_status "unknown" es) es
      ≡ or_unknown (final_status "unknown" es) (workflow_state es)
unfolding status_to_task_state workflow_state
status_to_task_state_lem es =
    let keeps = last_state_keeps "unknown" none es (rw parse-unknown) in
    elim (Option-cases (parse_state (final_status "unknown" es))) [
      | inl e ↦ rw (e, status_to_task_state)
      | inr (s, e) ↦ ground (arith, e, keeps)
    ]

pub status-rebuild_state :
    (tid : String) (l : Ledger)
    → (rebuild_state tid l).status ≡ final_status "unknown" (sorted_events tid l)
unfolding rebuild_state
status-rebuild_state tid l =
    status-view_events (blank_view (length (sorted_events tid l))) (sorted_events tid l)

pub replayed_state_lem :
    (tid : String) (l : Ledger)
    → replayed_state tid l
      ≡ or_unknown
          (final_status "unknown" (sorted_events tid l))
          (workflow_state (sorted_events tid l))
unfolding replayed_state
replayed_state_lem tid l = rw status-rebuild_state (status_to_task_state_lem (sorted_events tid l))

pub event_count-rebuild_state :
    (tid : String) (l : Ledger) → (rebuild_state tid l).event_count ≡ length (events_for_task tid l)
unfolding rebuild_state sorted_events
event_count-rebuild_state tid l =
    event_count-view_events (blank_view (length (sorted_events tid l))) (sorted_events tid l)
    ∙ length-sort earlier (events_for_task tid l)

-- The new event can be appended: its id is new, and both ids are not empty.
pub record IsNew (e : LedgerEvent) (l : Ledger) : Type 0 where
  pub id_given : str_eq e.event_id "" ≡ false
  pub task_given : str_eq e.task_id "" ≡ false
  pub id_new : member e.event_id l.event_ids ≡ false

-- No event of the task is later than the new one.
abbrev pub IsLatest : LedgerEvent → Ledger → Type 0
IsLatest e l = All (λ x. earlier x e ≡ true) (events_for_task e.task_id l)

pub record_event_new :
    (e : LedgerEvent) (l : Ledger)
    → IsNew e l
    → record_event e l
      ≡ (record { events = l.events ++ e ∷ []; event_ids = l.event_ids ++ e.event_id ∷ [] }, none)
unfolding record_event
record_event_new e l h = ground arith

pub events_for_task-append :
    (tid : String) (e : LedgerEvent) (l : Ledger)
    → IsNew e l
    → events_for_task tid (record_event e l).0
      ≡ (if str_eq e.task_id tid then events_for_task tid l ++ e ∷ [] else events_for_task tid l)
unfolding events_for_task
events_for_task-append tid e l h = elim (Bool-cases (str_eq e.task_id tid)) [
  | inl t ↦ rw (record_event_new e l h, select-append, t)
  | inr t ↦ rw (record_event_new e l h, select-append, t, append-nil)
]

pub sorted_events-append :
    (e : LedgerEvent) (l : Ledger)
    → IsNew e l
    → IsLatest e l
    → sorted_events e.task_id (record_event e l).0 ≡ sorted_events e.task_id l ++ e ∷ []
unfolding sorted_events
sorted_events-append e l h last =
    rw (events_for_task-append e.task_id e l h, eq_refl)
      (sort-append earlier (events_for_task e.task_id l) e last)

pub workflow_state-append :
    (e : LedgerEvent) (l : Ledger)
    → IsNew e l
    → IsLatest e l
    → workflow_state (sorted_events e.task_id (record_event e l).0)
      ≡ keep_state
          (parse_state (status_after_event e (final_status "unknown" (sorted_events e.task_id l))))
          (workflow_state (sorted_events e.task_id l))
unfolding workflow_state
workflow_state-append e l h last =
    ap (last_state "unknown" none) (sorted_events-append e l h last)
    ∙ last_state-append "unknown" none (sorted_events e.task_id l) e
