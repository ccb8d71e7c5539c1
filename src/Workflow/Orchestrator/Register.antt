-- ===== src/Workflow/Orchestrator/Register.antt =====
-- `register` over a coherent orchestrator.
use qwen.Prelude.{
  ℕ, String, ◌≡◌, refl, sym, subst, ap, ◌∙◌, true, false, some, List, [], ◌∷◌, arith, if◌then◌else◌,
  str_eq, eq_refl,
}
use qwen.Prelude.Dict.{put}
use qwen.Prelude.Sort.{sort}
use qwen.Ledger.{Ledger, LedgerEvent, record_event, task_created, events_for_task}
use qwen.Ledger.Projection.{sorted_events, status_after_event, earlier}
use qwen.Workflow.State.{created, parse_state, value}
use qwen.Workflow.Lock.{is_held}
use qwen.Workflow.Orchestrator.{
  Orchestrator, ok, err, already_registered, register, register_body, append_and_read, no_payload,
  last_state,
}
use qwen.Workflow.Orchestrator.Replay.{
  IsNew, final_status, replayed_state_lem, events_for_task-append, workflow_state,
}
use qwen.Workflow.Orchestrator.Coherence.{IsCoherent, ledger_state}
use qwen.Workflow.Orchestrator.Body.{IsOutcome, append_and_read-IsOutcome}
use qwen.Workflow.Orchestrator.Advance.{taken, taken-IsCoherent, with_lock_lem}

abbrev pub created_event : String → String → String → String → List ℕ → LedgerEvent
created_event tid device_id task_device event_id now = record {
  event_id = event_id;
  event_type = task_created;
  task_id = tid;
  device_id = if str_eq device_id "" then task_device else device_id;
  payload = record no_payload { status = some "created" };
  created_at = now;
}

pub ledger_state-created :
    (tid device_id task_device event_id : String) (now : List ℕ) (l : Ledger)
    → IsNew (created_event tid device_id task_device event_id now) l
    → events_for_task tid l ≡ []
    → ledger_state tid (record_event (created_event tid device_id task_device event_id now) l).0
      ≡ ok created
unfolding ledger_state sorted_events
ledger_state-created tid device_id task_device event_id now l new none_yet =
    let e = created_event tid device_id task_device event_id now in
    let l' = (record_event e l).0 in
    let one : events_for_task tid l' ≡ e ∷ [] =
      ground (arith, events_for_task-append tid e l new, none_yet, eq_refl tid) in
    let sorted : sorted_events tid l' ≡ e ∷ [] = ap (sort earlier) one ∙ unfold sort in refl in
    rw (one, replayed_state_lem, sorted)
      (unfold final_status workflow_state last_state status_after_event parse_state value in refl)

register_body_first :
    (tid device_id task_device event_id : String) (now : List ℕ) (w : Orchestrator)
    → sorted_events tid w.ledger ≡ []
    → register_body tid device_id task_device event_id now w
      ≡ append_and_read (created_event tid device_id task_device event_id now) tid w
unfolding register_body
register_body_first tid device_id task_device event_id now w none_yet = rw (none_yet, register_body)

module _ (tid k device_id task_device event_id : String) (now : List ℕ) (w : Orchestrator)
    (c : IsCoherent w) (free : is_held tid w.locks ≡ false) where
  -- The first registration of a task whose lock is free, with a new event id and a coherent cache,
  -- appends one `task_created` event, with the device given or else the task's, and returns
  -- `created`; the locks are as before and the cache stays coherent.
  pub register_first :
      events_for_task tid w.ledger ≡ []
      → IsNew (created_event tid device_id task_device event_id now) w.ledger
      → let (w', r) = register tid device_id task_device event_id now w in
        (r ≡ ok created)
        × (w'.ledger
            ≡ (record_event (created_event tid device_id task_device event_id now) w.ledger).0)
        × (is_held k w'.locks ≡ is_held k w.locks)
        × IsCoherent w'
  unfolding register
  register_first none_yet new =
      with_lock_lem tid k (register_body tid device_id task_device event_id now) w _ _ free (
        subst
          (λ r.
            IsOutcome
              (record_event (created_event tid device_id task_device event_id now) w.ledger).0
              (put tid true w.locks) r
              (register_body tid device_id task_device event_id now (taken tid w)))
          (ledger_state-created tid device_id task_device event_id now w.ledger new none_yet)
          (subst (IsOutcome _ (put tid true w.locks) _)
            (sym (
              register_body_first tid device_id task_device event_id now (taken tid w)
                (unfold sorted_events in rw none_yet (unfold sort in refl))))
            (append_and_read-IsOutcome (created_event tid device_id task_device event_id now) tid
              (taken tid w) new (taken-IsCoherent tid w c))))

  -- Where its lock is free and the cache coherent, a task that has an event in the ledger is not
  -- registered again: nothing is appended, the locks are as before and the cache stays coherent.
  pub register_again :
      (e : LedgerEvent) (es : List LedgerEvent)
      → sorted_events tid w.ledger ≡ e ∷ es
      → let (w', r) = register tid device_id task_device event_id now w in
        (r ≡ err already_registered)
        × (w'.ledger ≡ w.ledger)
        × (is_held k w'.locks ≡ is_held k w.locks)
        × IsCoherent w'
  unfolding register register_body
  register_again e es known =
      with_lock_lem tid k (register_body tid device_id task_device event_id now) w _ _ free (
        rw (known, register_body)
          (record {
            ledger_is = refl;
            locks_are = refl;
            result_is = refl;
            coherent = taken-IsCoherent tid w c;
          }))
