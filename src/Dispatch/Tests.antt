-- ===== src/Dispatch/Tests.antt =====
-- A device that is online with two queued tasks.
use qwen.Prelude.{
  String, str_eq, ℕ, ◌≡◌, refl, Bool, true, false, none, some, [], ◌∷◌, ◌++◌, map, ◌==◌,
  if◌then◌else◌,
}
use qwen.Prelude.Dict.{get}
use qwen.TaskStore.Delivery.Retries.{retries}
use qwen.Dispatch.Charged.{times, within_retries}
use qwen.TaskStore.{TaskState, new_state, Task, queue_of}
use qwen.Ledger.{empty}
use qwen.Events.{Stamp}
use qwen.Sessions.{outstanding, DeviceSession}
use qwen.Dispatch.{dispatch_batch, Channel, store_of, device_of, drain_pending_tasks}
use qwen.Dispatch.Failure.{failed_batch}
use qwen.Dispatch.Drain.{drain_total, drain_sends_all}

abbrev session_at : ℕ → DeviceSession
session_at r = record {
  device_id = "plotter";
  websocket = r;
  last_uptime_ms = 0;
  last_seen_at = 10;
  inflight_tasks = [];
}

abbrev drawing : ℕ → Task
drawing r = record {
  task_id = if r == 0 then "task-1" else "task-2";
  device_id = "plotter";
  capability = "run_path";
  source = "app";
  enqueued_at = 0;
  dispatch_gen = none;
}

abbrev online : Channel
online = record {
  registry = record {
    heap = session_at;
    sessions = ("plotter", 1) ∷ [];
    store = record {
      counter = 3;
      heap = drawing;
      tasks = [];
      pending = ("plotter", 0 ∷ 5 ∷ []) ∷ [];
      processing = [];
    };
  };
  workflow = record { ledger = empty; cache = []; locks = [] };
  frames = [];
}

abbrev stamp : ℕ → Stamp
stamp t = record { event_id = "e"; now = [] }

-- The second send fails.
drain_total_example :
    (o : Channel × Bool) × (drain_pending_tasks (λ t. t == 0) stamp 1 20 online ≡ some o)
drain_total_example = drain_total (λ t. t == 0) stamp 1 20 online

drain_sends_all_example :
    (c' : Channel) × (drain_pending_tasks (λ t. true) stamp 1 20 online ≡ some (c', true))
    × (queue_of (device_of 1 online) (store_of c') ≡ [])
    × (c'.frames ≡ [] ++ map (λ t. (1, t)) (queue_of (device_of 1 online) (store_of online)))
drain_sends_all_example = drain_sends_all (λ t. true) stamp 1 20 online (λ t. refl)

abbrev tried : ℕ → TaskState
tried n = record (new_state none "dispatching") { retry_count = n }

abbrev retried : String → ℕ
retried k = if str_eq k "task-2" then 3 else if str_eq k "task-3" then 1 else 0

-- The session has task 7 in flight, and the second task of the batch was tried three times.
abbrev failing : Channel
failing = record online {
  registry = record online.registry {
    heap = λ r. record (session_at r) { inflight_tasks = ("task-3", 7) ∷ [] };
    store = record online.registry.store {
      heap = λ r. record (drawing r) {
        task_id = if r == 0 then "task-1" else if r == 5 then "task-2" else "task-3";
      };
      tasks = ("task-1", tried 0) ∷ ("task-2", tried 3) ∷ ("task-3", tried 1) ∷ [];
      pending = ("plotter", 9 ∷ []) ∷ [];
    };
  };
}

-- The send fails: the tail is left out.
failed_batch_example :
    let (c', sent) = dispatch_batch (λ t. t == 5) stamp 1 (0 ∷ 5 ∷ []) failing in
    (sent ≡ false)
    × (queue_of "plotter" (store_of c') ≡ 7 ∷ 0 ∷ 9 ∷ [])
    × ((retries "task-3" (store_of c') ≡ some 2)
        × ((retries "task-1" (store_of c') ≡ some 1)
            × ((retries "task-2" (store_of c') ≡ some 4) × Unit {0})))
unfolding outstanding get times within_retries
failed_batch_example =
    failed_batch (λ t. t == 5) stamp 1 0 (5 ∷ []) failing retried refl (refl, (refl, tt)) (refl, tt)
