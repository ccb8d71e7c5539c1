-- ===== src/Ledger.antt =====
-- device_ledger/events.py and store.py: typed events, and the append-only store `InMemoryLedgerStore`.
-- An event's payload keeps the keys that the readers look up (`task`, which `replay_task` only hands
-- on, is left out); a motion event in a payload is a dict with keys, so it counts as true.
-- `created_at` is the text's code points, by which the readers sort.
pub mod Projection
pub mod Replay
use qwen.Prelude.{
  ℕ, String, Bool, true, false, Option, none, some, List, [], ◌∷◌, ◌++◌, if◌then◌else◌, str_eq,
  select,
}
use qwen.Prelude.Dict.{member}
use qwen.Motion.{Report}

pub data EventType : Type 0 where
  task_created task_updated task_dispatched motion_event task_terminal task_acknowledged : EventType
  task_progress task_paused task_resumed device_connected device_disconnected : EventType

pub record Payload : Type 0 where
  pub status : Option String
  pub state : Option String
  pub motion_event : Option Report
  pub terminal_event : Option Report
  pub top : Report  -- the report's keys beside these

pub record LedgerEvent : Type 0 where
  pub event_id : String
  pub event_type : EventType
  pub task_id : String
  pub device_id : String
  pub payload : Payload
  pub created_at : List ℕ

pub data LedgerError : Type 0 where
  event_id_required : LedgerError
  task_id_required : LedgerError
  duplicate_event : LedgerError

pub record Ledger : Type 0 where
  pub events : List LedgerEvent
  pub event_ids : List String

abbrev pub empty : Ledger
empty = record { events = []; event_ids = [] }

-- `__post_init__`: the checks that an event of a known type passes before it exists. `new_event`
-- stamps `created_at`, so the default there is not reached.
unfoldable pub check_event : LedgerEvent → Option LedgerError
check_event e =
    if str_eq e.event_id ""
    then some event_id_required
    else if str_eq e.task_id ""
    then some task_id_required
    else none

unfoldable pub append_event : LedgerEvent → Ledger → Ledger × Option LedgerError
unfolding member
append_event e l =
    if member e.event_id l.event_ids
    then (l, some duplicate_event)
    else (record { events = l.events ++ e ∷ []; event_ids = l.event_ids ++ e.event_id ∷ [] }, none)

-- `ledger_store.append_event(new_event(...))`
unfoldable pub record_event : LedgerEvent → Ledger → Ledger × Option LedgerError
unfolding check_event append_event
record_event e l = elim (check_event e) [ none ↦ append_event e l | some x ↦ (l, some x) ]

unfoldable pub events_for_task : String → Ledger → List LedgerEvent
events_for_task tid l = select (λ e. str_eq e.task_id tid) l.events

unfoldable pub events_for_device : String → Ledger → List LedgerEvent
events_for_device d l = select (λ e. str_eq e.device_id d) l.events
