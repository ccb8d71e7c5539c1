-- ===== src/Ledger/Replay.antt =====
-- `replay_task` of device_ledger/store.py: the events of a task in the order of their arrival. The
-- result's `task` and `events` are copies of what is stored, and left out.
mod Tests
use qwen.Prelude.{ℕ, String, Option, none, some, List, [], ◌∷◌, if◌then◌else◌, str_eq, length}
use qwen.Motion.{Report}
use qwen.Ledger.{
  EventType, task_created, task_updated, task_dispatched, motion_event, task_terminal, Payload,
  LedgerEvent, Ledger, events_for_task,
}
use qwen.Ledger.Projection.{or_else, source_of}

pub record Replay : Type 0 where
  pub device_id : String
  pub status : String
  pub terminal_event : Option Report
  pub event_count : ℕ

replay_status : EventType → Payload → String → String
replay_status task_created p current = or_else p.status "created"
replay_status task_dispatched p current = "dispatched"
replay_status task_updated p current = or_else p.state current
replay_status motion_event p current = or_else (source_of p).phase current
replay_status task_terminal p current = or_else (source_of p).phase current
replay_status _ p current = current

replay_terminal : EventType → Payload → Option Report → Option Report
replay_terminal task_terminal p last = some (source_of p)
replay_terminal _ p last = last

-- One round of the loop of `_replay_from_events`.
replay_event : Replay → LedgerEvent → Replay
unfolding replay_status replay_terminal
replay_event r e = record r {
  device_id = if str_eq e.device_id "" then r.device_id else e.device_id;
  status = replay_status e.event_type e.payload r.status;
  terminal_event = replay_terminal e.event_type e.payload r.terminal_event;
}

replay_events : Replay → List LedgerEvent → Replay
replay_events r [] = r
replay_events r (e ∷ es) = replay_events (replay_event r e) es

pub replay_task : String → Ledger → Replay
unfolding replay_events
replay_task tid l =
    let events = events_for_task tid l in
    replay_events
      (record {
        device_id = "";
        status = "unknown";
        terminal_event = none;
        event_count = length events;
      })
      events
