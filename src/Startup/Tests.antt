-- ===== src/Startup/Tests.antt =====
-- The recovery of a store with a task that the ledger does not know.
use qwen.Prelude.{◌+◌, ◌≡◌, none, some, [], ◌∷◌, length}
use qwen.Prelude.Dict.{get}
use qwen.TaskStore
use qwen.TaskStore.{Store, Task, list_inflight_task_ids}
use qwen.Workflow.Orchestrator.Traces.{init}
use qwen.Workflow.Orchestrator.Coherence.{IsCoherent}
use qwen.Startup.{recover_inflight_tasks}
use qwen.Startup.Counted.{known_of, disagreeing, startup_exact}

abbrev drawing : Task
drawing = record {
  task_id = "task-000001";
  device_id = "plotter";
  capability = "draw";
  source = "app";
  enqueued_at = 0;
  dispatch_gen = none;
}

abbrev one_running : Store
one_running = record {
  counter = 2;
  heap = λ r. drawing;
  tasks = ("task-000001", TaskStore.new_state (some 0) "running") ∷ [];
  pending = [];
  processing = [];
}

init-IsCoherent : IsCoherent init
unfolding get
init-IsCoherent = record { seen = λ tid n s q. cc; said = λ tid n s q. cc }

startup_exact_example :
    let ids = list_inflight_task_ids 1000 one_running in
    let (w', c) = recover_inflight_tasks one_running 1000 init in
    (c.scanned ≡ length ids)
    × (c.recovered ≡ known_of init.ledger ids)
    × (c.recovered + c.missing_in_ledger ≡ c.scanned)
    × (c.status_mismatch ≡ disagreeing one_running init.ledger ids)
    × (w'.ledger ≡ init.ledger)
    × IsCoherent w'
startup_exact_example = startup_exact one_running 1000 init init-IsCoherent
