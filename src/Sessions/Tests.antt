-- ===== src/Sessions/Tests.antt =====
-- A device that reconnects, and one that is gone.
use qwen.Prelude.{ℕ, ◌≡◌, refl, none, [], ◌∷◌, if◌then◌else◌}
use qwen.Prelude.Dict.{get}
use qwen.TaskStore.{Task}
use qwen.Sessions.{DeviceSession, Registry, is_zombie, remove_zombies}
use qwen.Sessions.Registered.{are_distinct, has_stale, get-remove_zombies}

abbrev session_at : ℕ → DeviceSession
session_at r = record {
  device_id = "plotter";
  websocket = r;
  last_uptime_ms = 0;
  last_seen_at = 10;
  inflight_tasks = [];
}

abbrev drawing : Task
drawing = record {
  task_id = "task-000001";
  device_id = "plotter";
  capability = "draw";
  source = "app";
  enqueued_at = 0;
  dispatch_gen = none;
}

abbrev one_session : Registry
one_session = record {
  heap = session_at;
  sessions = ("plotter", 1) ∷ [];
  store = record { counter = 1; heap = λ r. drawing; tasks = []; pending = []; processing = [] };
}

get-remove_zombies_example : get "plotter" (remove_zombies 100 200 one_session).0.sessions ≡ (
    if has_stale (is_zombie 100 200) one_session.heap (get "plotter" one_session.sessions)
    then none
    else get "plotter" one_session.sessions)
unfolding are_distinct get
get-remove_zombies_example = get-remove_zombies 100 200 "plotter" one_session refl
