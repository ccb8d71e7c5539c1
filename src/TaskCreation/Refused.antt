-- ===== src/TaskCreation/Refused.antt =====
-- A task that is refused: what is recorded of it, and what is left alone.
use qwen.Prelude.{ℕ, ◌+◌, String, ◌≡◌, refl, ap, Option, none, [], ◌∷◌, ◌++◌, str_eq, if◌then◌else◌}
use qwen.Prelude.Dict.{member}
use qwen.TaskStore.{next_task_id, create_task_state}
use qwen.Ledger.{Ledger, LedgerError, record_event, events_for_task}
use qwen.MotionParams.Capability.{control_capabilities}
use qwen.Workflow.Orchestrator.Replay.{IsNew, record_event_new, events_for_task-append}
use qwen.Workflow.Orchestrator.Coherence.{IsCoherent, append-IsCoherent}
use qwen.Workflow.Orchestrator.Chain.{Stamp}
use qwen.TaskCreation.{
  VoiceTask, Planner, Cloud, returned, TaskError, error_event, error_task, build_error_task,
  new_task,
}
use qwen.TaskCreation.Ready.{IsStored, stored}

-- A task that is refused, for whatever reason and with whatever status, is recorded and goes no
-- further. Where the workflow is coherent and the event new: the task that is returned has the error and no parameters;
-- the store has its state with the status, and every queue and processing table as before; the ledger
-- has one `task_created` event more, of this task; no lock is taken, and the cache stays coherent.
pub build_error_task_exact :
    (pl : Planner) (device_id : String) (voice : VoiceTask) (error : TaskError) (status : String)
    (r : ℕ) (st : Stamp) (c : Cloud) (k : String)
    → IsCoherent c.workflow
    → IsNew (error_event (pl.format c.store.counter) device_id status st) c.workflow.ledger
    → let tid = pl.format c.store.counter in
      let (c', out) = build_error_task pl device_id voice error status r st c in
      (out ≡ returned (error_task r tid error))
      × IsStored tid r status c.store c'.store
      × (events_for_task k c'.workflow.ledger ≡ (
          if str_eq tid k
          then events_for_task k c.workflow.ledger ++ error_event tid device_id status st ∷ []
          else events_for_task k c.workflow.ledger))
      × (c'.workflow.locks ≡ c.workflow.locks)
      × IsCoherent c'.workflow
unfolding build_error_task next_task_id create_task_state
build_error_task_exact pl device_id voice error status r st c k coherent new =
    let tid = pl.format c.store.counter in
    let e = error_event tid device_id status st in
    let l = c.workflow.ledger in
    let capability =
      if member voice.capability control_capabilities then voice.capability else "run_path" in
    let none_raised : (record_event e l).1 ≡ none =
      ap (λ (p : Ledger × Option LedgerError). p.1) (record_event_new e l new) in
    rw (none_raised, build_error_task)
      (
        refl,
        (
          stored r (new_task tid device_id capability voice.source) status
              (record c.store { counter = c.store.counter + 1 }),
          refl,
          refl,
        ),
        events_for_task-append k e l new,
        refl,
        append-IsCoherent e c.workflow new coherent,
      )
