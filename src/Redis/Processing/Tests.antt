-- ===== src/Redis/Processing/Tests.antt =====
-- The sweep at a processing list with a late item.
use qwen.Prelude.{◌+◌, ◌≡◌, true, ◌||◌, none, some, [], ◌∷◌, length}
use qwen.Redis.{Task, Item, item, new_state, pending, processing, occurs}
use qwen.Redis.Table.{Tables, tables}
use qwen.Redis.Processing.{recover_stale_processing}
use qwen.Redis.Processing.Recover.{recover_keeps_items}

abbrev draw : Task
draw = record {
  task_id = "task-1";
  device_id = "dev";
  capability = "run_path";
  source = "app";
  params = 0;
  enqueued_at = 5;
  processing_at = 0;
  dispatch_gen = none;
}

abbrev one_late : Tables
one_late = record {
  tasks = ("task-1", new_state (some draw) "dispatched") ∷ [];
  pending_lists = [];
  processing_lists = ("dev", item draw ∷ []) ∷ [];
  counter = 1;
}

recover_keeps_items_example :
    let (s', count) = recover_stale_processing tables "dev" 120 500 one_late in
    (length (tables.lrange (pending "dev") s')
      ≡ length (tables.lrange (pending "dev") one_late) + count)
    × ((y : Item)
        → (occurs y (tables.lrange (pending "dev") one_late)
            || occurs y (tables.lrange (processing "dev") one_late))
          ≡ true
        → (occurs y (tables.lrange (pending "dev") s')
            || occurs y (tables.lrange (processing "dev") s'))
          ≡ true)
recover_keeps_items_example = recover_keeps_items tables "dev" 120 500 one_late
