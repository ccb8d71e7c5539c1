-- ===== src/Redis/Queue/Tests.antt =====
-- The theorems on the queue of the Redis store at a queue with a valid task and one that may not run.
use qwen.Prelude.{◌==◌, ◌≡◌, none, some, [], ◌∷◌, drop}
use qwen.Prelude.Dict.{get}
use qwen.Redis.{Task, item, new_state, pending}
use qwen.Redis.Table.{Tables, tables}
use qwen.Redis.Queue.{ParamsCheck, validate_task_schema, pop_pending_tasks}
use qwen.Redis.Queue.Pop.{all_readable, unstamped_all, pop_exact}

abbrev draw : Task
draw = record {
  task_id = "task-1";
  device_id = "dev";
  capability = "run_path";
  source = "app";
  params = 0;
  enqueued_at = 5;
  processing_at = 0;
  dispatch_gen = none;
}

abbrev flash : Task
flash = record draw { task_id = "task-2"; capability = "flash" }

abbrev two_queued : Tables
two_queued = record {
  tasks = ("task-1", new_state (some draw) "queued") ∷ [];
  pending_lists = ("dev", item draw ∷ item flash ∷ []) ∷ [];
  processing_lists = [];
  counter = 2;
}

abbrev params_ok : ParamsCheck
params_ok capability params = some (params == 0)

pop_exact_example :
    let (s', answer) = pop_pending_tasks tables params_ok "dev" 16 9 two_queued in
    (unstamped_all answer ≡ some (draw ∷ []))
    × (tables.lrange (pending "dev") s' ≡ drop 16 (tables.lrange (pending "dev") two_queued))
unfolding all_readable validate_task_schema get
pop_exact_example = pop_exact tables params_ok "dev" 16 9 two_queued
