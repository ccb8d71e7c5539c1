-- ===== src/Workflow/Orchestrator/Body.antt =====
-- The two bodies that run under a task's lock, over a coherent orchestrator.
use qwen.Prelude.{
  ℕ, String, ◌≡◌, refl, sym, subst, subst₂, ap, ◌∙◌, true, false, Option, some, List, arith,
}
use qwen.Ledger.{LedgerEvent, LedgerError, Ledger, record_event}
use qwen.Ledger.Projection.{rebuild_state, sorted_events, status_after_event}
use qwen.Workflow.State.{TaskState, completed, value, parse_state, is_allowed}
use qwen.Workflow.Lock.{Locks}
use qwen.Workflow.Orchestrator.{
  Orchestrator, Result, ok, err, invalid_transition, current_state, append_and_read, advance_event,
  advance_body, advance_from, keep_state,
}
use qwen.Workflow.Orchestrator.Replay.{final_status, IsNew, IsLatest, record_event_new}
use qwen.Workflow.Orchestrator.Coherence.{
  IsCoherent, ledger_state, current_state_lem, ledger-current_state, locks-current_state,
  current_state-IsCoherent, append-IsCoherent, ledger_state-append,
}

-- The state that an advance to `target` leads to. `completed` is recorded as the phase `done`, which is
-- no workflow state, so the state stays.
unfoldable pub reached : TaskState → TaskState → TaskState
reached current completed = current
reached current target = target

abbrev pub event_of_advance : String → TaskState → String → List ℕ → Ledger → LedgerEvent
event_of_advance tid target event_id now l = record {
  event_id = event_id;
  event_type = (advance_event target).0;
  task_id = tid;
  device_id = (rebuild_state tid l).device_id;
  payload = (advance_event target).1;
  created_at = now;
}

-- The status text that the event of an advance gives.
parse-advance_event :
    (tid : String) (current target : TaskState) (event_id : String) (now : List ℕ) (l : Ledger)
    (status : String)
    → keep_state
        (parse_state (status_after_event (event_of_advance tid target event_id now l) status))
        (some current)
      ≡ some (reached current target)
unfolding parse_state status_after_event advance_event value reached
parse-advance_event tid current completed event_id now l status = refl
parse-advance_event tid current _ event_id now l status = refl

-- An operation's outcome: the ledger and the locks it leaves, its result, and a coherent cache.
pub record IsOutcome (l : Ledger) (locks : Locks) (r : Result TaskState)
    (p : Orchestrator × Result TaskState) : Type 0 where
  pub ledger_is : p.0.ledger ≡ l
  pub locks_are : p.0.locks ≡ locks
  pub result_is : p.1 ≡ r
  pub coherent : IsCoherent p.0

read-IsOutcome :
    (tid : String) (w : Orchestrator)
    → IsCoherent w
    → IsOutcome w.ledger w.locks (ledger_state tid w.ledger) (current_state tid w)
read-IsOutcome tid w c = record {
  ledger_is = ledger-current_state tid w;
  locks_are = locks-current_state tid w;
  result_is = current_state_lem tid w c;
  coherent = current_state-IsCoherent tid w c;
}

append_and_read_lem :
    (e : LedgerEvent) (tid : String) (w : Orchestrator)
    → IsNew e w.ledger
    → append_and_read e tid w
      ≡ current_state tid (record w { ledger = (record_event e w.ledger).0 })
unfolding append_and_read
append_and_read_lem e tid w new = rw (
  ap (λ (p : Ledger × Option LedgerError). p.1) (record_event_new e w.ledger new),
  append_and_read,
)

pub append_and_read-IsOutcome :
    (e : LedgerEvent) (tid : String) (w : Orchestrator)
    → IsNew e w.ledger
    → IsCoherent w
    → let l = (record_event e w.ledger).0 in
      IsOutcome l w.locks (ledger_state tid l) (append_and_read e tid w)
append_and_read-IsOutcome e tid w new c =
    let l = (record_event e w.ledger).0 in
    subst (IsOutcome l w.locks (ledger_state tid l)) (sym (append_and_read_lem e tid w new))
      (read-IsOutcome tid (record w { ledger = l }) (append-IsCoherent e w new c))

-- What the ledger says after the event of an advance.
pub ledger_state-advance :
    (tid : String) (current target : TaskState) (event_id : String) (now : List ℕ) (l : Ledger)
    → IsNew (event_of_advance tid target event_id now l) l
    → IsLatest (event_of_advance tid target event_id now l) l
    → ledger_state tid l ≡ ok current
    → ledger_state tid (record_event (event_of_advance tid target event_id now l) l).0
      ≡ ok (reached current target)
ledger_state-advance tid current target event_id now l new latest says =
    ledger_state-append (event_of_advance tid target event_id now l) l current
      (reached current target) new latest says
      (parse-advance_event tid current target event_id now l
        (final_status "unknown" (sorted_events tid l)))

-- An allowed advance, with a new event that is the latest of its task.
advance_from-IsOutcome :
    (tid : String) (current target : TaskState) (event_id : String) (now : List ℕ)
    (w : Orchestrator) (r : Result TaskState)
    → r ≡ ok current
    → is_allowed current target ≡ true
    → IsCoherent w
    → IsNew (event_of_advance tid target event_id now w.ledger) w.ledger
    → IsLatest (event_of_advance tid target event_id now w.ledger) w.ledger
    → ledger_state tid w.ledger ≡ ok current
    → IsOutcome
        (record_event (event_of_advance tid target event_id now w.ledger) w.ledger).0
        w.locks
        (ok (reached current target))
        (advance_from tid target event_id now w r)
unfolding advance_from
advance_from-IsOutcome tid current target event_id now w (err x) is may c new latest says = cc
advance_from-IsOutcome tid current target event_id now w (ok s) is may c new latest says =
    let e = event_of_advance tid target event_id now w.ledger in
    let after = append_and_read-IsOutcome e tid w new c in
    let leads = ledger_state-advance tid current target event_id now w.ledger new latest says in
    let may' : is_allowed s target ≡ true = ground (arith, is, may) in
    rw may' (record {
      ledger_is = after.ledger_is;
      locks_are = after.locks_are;
      result_is = after.result_is ∙ leads;
      coherent = after.coherent;
    })

-- A refused advance appends nothing.
advance_from-refused :
    (tid : String) (current target : TaskState) (event_id : String) (now : List ℕ)
    (w : Orchestrator) (r : Result TaskState)
    → r ≡ ok current
    → is_allowed current target ≡ false
    → IsCoherent w
    → IsOutcome w.ledger w.locks
        (err (invalid_transition current target))
        (advance_from tid target event_id now w r)
unfolding advance_from
advance_from-refused tid current target event_id now w (err x) is may c = cc
advance_from-refused tid current target event_id now w (ok s) is may c =
    let may' : is_allowed s target ≡ false = ground (arith, is, may) in
    rw may'
      (record { ledger_is = refl; locks_are = refl; result_is = ground (arith, is); coherent = c })

module _ (tid : String) (current target : TaskState) (event_id : String) (now : List ℕ)
    (w : Orchestrator) (c : IsCoherent w) (says : ledger_state tid w.ledger ≡ ok current) where
  pub advance_body-IsOutcome :
      is_allowed current target ≡ true
      → IsNew (event_of_advance tid target event_id now w.ledger) w.ledger
      → IsLatest (event_of_advance tid target event_id now w.ledger) w.ledger
      → IsOutcome
          (record_event (event_of_advance tid target event_id now w.ledger) w.ledger).0
          w.locks
          (ok (reached current target))
          (advance_body tid target event_id now w)
  unfolding advance_body
  advance_body-IsOutcome may new latest =
      let read = read-IsOutcome tid w c in
      let (w', r) = current_state tid w in
      let P : Ledger → Locks → Type 0 = λ l locks.
        IsNew (event_of_advance tid target event_id now l) l
        → IsLatest (event_of_advance tid target event_id now l) l
        → ledger_state tid l ≡ ok current
        → IsOutcome (record_event (event_of_advance tid target event_id now l) l).0 locks
            (ok (reached current target)) (advance_from tid target event_id now w' r) in
      subst₂ P read.ledger_is read.locks_are
        (advance_from-IsOutcome tid current target event_id now w' r (read.result_is ∙ says) may
          read.coherent)
        new latest says

  pub advance_body-refused :
      is_allowed current target ≡ false
      → IsOutcome w.ledger w.locks
          (err (invalid_transition current target))
          (advance_body tid target event_id now w)
  unfolding advance_body
  advance_body-refused may =
      let read = read-IsOutcome tid w c in
      let (w', r) = current_state tid w in
      subst₂
        (λ l locks.
          IsOutcome l locks (err (invalid_transition current target))
            (advance_from tid target event_id now w' r))
        read.ledger_is read.locks_are
        (advance_from-refused tid current target event_id now w' r (read.result_is ∙ says) may
          read.coherent)
