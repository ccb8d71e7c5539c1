-- ===== src/Workflow/Orchestrator/Traces.antt =====
-- The orchestrator under any sequence of its operations and of other appends to the ledger.
use qwen.Prelude.{ℕ, String, ◌≢◌, true, List, []}
use qwen.Prelude.Dict
use qwen.Ledger.{LedgerEvent, empty, record_event}
use qwen.Workflow.State.{TaskState, completed}
use qwen.Workflow.Orchestrator.{
  Orchestrator, ok, register, register_body, advance, advance_body, current_state, get_state, reset,
}
use qwen.Workflow.Orchestrator.Completed.{
  IsPlain, NeverCompleted, current_state-IsQuiet, record_event-IsPlain, with_lock-IsQuiet,
  advance_from-IsQuiet, register_body-IsQuiet, locks-NeverCompleted,
}

pub data Step (w : Orchestrator) : Orchestrator → Type 0 where
  registered :
      (tid device_id task_device event_id : String) (now : List ℕ)
      → Step w (register tid device_id task_device event_id now w).0
  advanced :
      (tid : String) (target : TaskState) (event_id : String) (now : List ℕ)
      → Step w (advance tid target event_id now w).0
  read : (tid : String) → Step w (get_state tid w).0
  forgot : Step w (reset w)
  -- another writer of the ledger, such as `record_motion_event`
  recorded :
      (e : LedgerEvent) → IsPlain e → Step w (record w { ledger = (record_event e w.ledger).0 })

pub data Reach (w : Orchestrator) : Orchestrator → Type 0 where
  here : Reach w w
  next : {t u : Orchestrator} → Reach w t → Step t u → Reach w u

abbrev pub init : Orchestrator
init = record { ledger = empty; cache = []; locks = [] }

Step-NeverCompleted : {w t : Orchestrator} → Step w t → NeverCompleted w → NeverCompleted t
Step-NeverCompleted {w} (registered tid device_id task_device event_id now) h =
    unfold register in
    (with_lock-IsQuiet tid (register_body tid device_id task_device event_id now) w h (
      register_body-IsQuiet tid device_id task_device event_id now _
        (locks-NeverCompleted _ w h))).never
Step-NeverCompleted {w} (advanced tid target event_id now) h =
    let w' : Orchestrator = record w { locks = Dict.put tid true w.locks } in
    let (c, r) = current_state tid w' in
    unfold advance advance_body in
    (with_lock-IsQuiet tid (advance_body tid target event_id now) w h (
      advance_from-IsQuiet tid target event_id now c r
        (current_state-IsQuiet tid w' (locks-NeverCompleted _ w h)).never)).never
Step-NeverCompleted {w} (read tid) h = unfold get_state in (current_state-IsQuiet tid w h).never
Step-NeverCompleted {w} forgot h =
    unfold reset in record { plain = h.plain; no_cached = λ tid n q. unfold Dict.get in cc }
Step-NeverCompleted {w} (recorded e p) h = record {
  plain = record_event-IsPlain e w.ledger p h.plain;
  no_cached = h.no_cached;
}

init-NeverCompleted : NeverCompleted init
init-NeverCompleted = record { plain = tt; no_cached = λ tid n q. unfold Dict.get in cc }

Reach-NeverCompleted : {w t : Orchestrator} → NeverCompleted w → Reach w t → NeverCompleted t
Reach-NeverCompleted h here = h
Reach-NeverCompleted h (next r st) = Step-NeverCompleted st (Reach-NeverCompleted h r)

-- From an empty ledger, whatever is registered, advanced and read, and whatever other events are
-- recorded that do not give `completed` for a status themselves, no read of a task's state gives
-- `completed`, also after an advance to `completed` that succeeded.
pub never_completed :
    (tid : String) (w : Orchestrator) → Reach init w → (get_state tid w).1 ≢ ok completed
unfolding get_state
never_completed tid w r =
    (current_state-IsQuiet tid w (Reach-NeverCompleted init-NeverCompleted r)).result
