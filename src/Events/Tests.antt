-- ===== src/Events/Tests.antt =====
-- A task that fails, with and without a retry.
use qwen.Prelude.{◌+◌, ◌≤◌, ◌≡◌, refl, true, none, some, List, [], ◌∷◌, arith}
use qwen.Prelude.Dict.{get, put, member}
use qwen.Motion.{MotionEvent, text}
use qwen.TaskStore
use qwen.TaskStore.{Task, Store, create_task_state}
use qwen.TaskStore.Delivery.{enqueue_pending_task, reset_task_for_retry}
use qwen.Ledger.{record_event, events_for_task}
use qwen.Workflow.Orchestrator.{advance, with_lock, advance_body, advance_from, current_state}
use qwen.Workflow.Lock.{acquire, release}
use qwen.Prelude.Sort.{sort}
use qwen.Ledger.Projection.{rebuild_state, sorted_events, view_events}
use qwen.Workflow.Orchestrator.Traces.{init}
use qwen.Recovery.{recovery_action, should_retry}
use qwen.Events.{
  Gateway, Stamps, is_terminal_phase, target_of, recovery_code, record_motion_event,
  execute_recovery, recover_code, then_append, advance_workflow_on_event, after_motion, finish,
}
use qwen.Events.Terminal.{has_terminal, is_returned, terminal_recorded}
use qwen.Events.Retries.{Failure, retry_in, retries, retries_bounded}

abbrev failure : MotionEvent
failure = record {
  task_id = "task-000001";
  device_id = "plotter";
  phase = "failed";
  progress = none;
  error = some (text "E_UART_TIMEOUT");
  error_code = none;
  error_message = none;
}

abbrev drawing : Task
drawing = record {
  task_id = "task-000001";
  device_id = "plotter";
  capability = "draw";
  source = "app";
  enqueued_at = 0;
  dispatch_gen = none;
}

abbrev one_created : Store
one_created = record {
  counter = 2;
  heap = λ r. drawing;
  tasks = ("task-000001", TaskStore.new_state (some 0) "dispatched") ∷ [];
  pending = [];
  processing = [];
}

abbrev gateway : Gateway
gateway = record { store = one_created; workflow = init; effects = [] }

abbrev stamps : Stamps
stamps = record {
  of_advance = record { event_id = "l-1"; now = 1 ∷ [] };
  of_motion = record { event_id = "l-2"; now = 2 ∷ [] };
  of_terminal = record { event_id = "l-3"; now = 3 ∷ [] };
}

failed_returns : is_returned (record_motion_event failure stamps gateway).1 ≡ true
unfolding record_motion_event is_terminal_phase member target_of get record_event then_append
    advance_workflow_on_event after_motion finish advance with_lock acquire advance_body
    advance_from current_state release events_for_task rebuild_state sorted_events sort view_events
failed_returns = refl

terminal_recorded_example :
    has_terminal "task-000001" (record_motion_event failure stamps gateway).0.workflow.ledger.events
    ≡ true
unfolding is_terminal_phase member
terminal_recorded_example = terminal_recorded failure stamps gateway refl failed_returns

abbrev three_failures : List Failure
three_failures =
    record { task_id = "task-000001"; device_id = "plotter"; event = failure; copy = 1; now = 10 }
    ∷ record { task_id = "task-000001"; device_id = "plotter"; event = failure; copy = 2; now = 20 }
    ∷ record { task_id = "task-000001"; device_id = "plotter"; event = failure; copy = 3; now = 30 }
    ∷ []

-- A timeout of the serial line is retried twice.
retried_twice : retries (λ code. code) "task-000001" three_failures one_created ≡ 2
unfolding retries execute_recovery recover_code recovery_code recovery_action should_retry get put
    TaskStore.task_snapshot enqueue_pending_task reset_task_for_retry
retried_twice = refl

retries_bounded_example :
    retries (λ code. code) "task-000001" three_failures one_created
      + retry_in "task-000001" one_created.tasks
    ≤ 3
unfolding get
retries_bounded_example =
    retries_bounded (λ code. code) "task-000001" three_failures one_created refl (omega arith)
