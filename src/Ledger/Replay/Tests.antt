-- ===== src/Ledger/Replay/Tests.antt =====
-- A task that was created and dispatched.
use qwen.Prelude.{◌≡◌, refl, none, [], ◌∷◌}
use qwen.Ledger.{Payload, Ledger, task_created, task_dispatched, events_for_task}
use qwen.Ledger.Replay.{replay_task, replay_event}

abbrev no_keys : Payload
no_keys = record {
  status = none;
  state = none;
  motion_event = none;
  terminal_event = none;
  top = record {
    phase = none;
    progress = none;
    error = none;
    error_code = none;
    error_message = none;
  };
}

abbrev two_events : Ledger
two_events = record {
  events =
      record {
        event_id = "l-1";
        event_type = task_created;
        task_id = "t";
        device_id = "plotter";
        payload = no_keys;
        created_at = 1 ∷ [];
      }
      ∷ record {
        event_id = "l-2";
        event_type = task_dispatched;
        task_id = "t";
        device_id = "";
        payload = no_keys;
        created_at = 2 ∷ [];
      }
      ∷ [];
  event_ids = "l-1" ∷ "l-2" ∷ [];
}

dispatched_last : (replay_task "t" two_events).status ≡ "dispatched"
unfolding replay_task events_for_task replay_event
dispatched_last = refl
