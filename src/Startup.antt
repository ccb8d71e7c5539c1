-- ===== src/Startup.antt =====
-- device_workflow/startup_recovery.py: `recover_inflight_tasks` over the task store and the workflow.
pub mod Counted
mod Tests
use qwen.Prelude.{
  ℕ, suc, ◌+◌, String, Bool, true, false, ◌&&◌, not, Option, none, some, List, [], ◌∷◌,
  if◌then◌else◌, length,
}
use qwen.Prelude.Dict.{member}
use qwen.TaskStore.{Store, Snapshot, task_snapshot, list_inflight_task_ids}
use qwen.Workflow.State.{TaskState, store_statuses}
use qwen.Workflow.Orchestrator.{Orchestrator, Result, ok, err, get_state}

pub record Report : Type 0 where
  pub scanned : ℕ
  pub recovered : ℕ
  pub missing_in_ledger : ℕ
  pub status_mismatch : ℕ

-- The store's status differs from those that go with the workflow's state.
unfoldable pub is_mismatch : TaskState → Option Snapshot → Bool
unfolding member
is_mismatch state none = false
is_mismatch state (some snapshot) = not (member snapshot.status (store_statuses state))

-- What one task adds to the counts.
count_task : Store → String → Result TaskState → Report → Report
count_task s tid (err x) c = record c { missing_in_ledger = c.missing_in_ledger + 1 }
count_task s tid (ok state) c = record c {
  recovered = c.recovered + 1;
  status_mismatch =
      if is_mismatch state (task_snapshot tid s) then c.status_mismatch + 1 else c.status_mismatch;
}

-- The loop; `get_state` warms the cache.
scan : Store → List String → Orchestrator → Report → Orchestrator × Report
unfolding count_task
scan s [] w c = (w, c)
scan s (tid ∷ ids) w c = let (w', r) = get_state tid w in scan s ids w' (count_task s tid r c)

pub recover_inflight_tasks : Store → ℕ → Orchestrator → Orchestrator × Report
unfolding scan
recover_inflight_tasks s limit w =
    let ids = list_inflight_task_ids limit s in
    scan s ids w
      (record { scanned = length ids; recovered = 0; missing_in_ledger = 0; status_mismatch = 0 })
