-- ===== src/Events/Terminal.antt =====
-- What a motion event leaves in the store and in the ledger.
use qwen.Prelude.{
  ℕ, ◌≡◌, refl, ◌∙◌, String, Bool, true, false, false≢true, ◌&&◌, ◌||◌, ◌⊎◌, eq_iff, Option, none,
  some, List, [], ◌∷◌, ◌++◌, inl, inr, arith, str_eq, eq_refl, Bool-cases, Option-cases, subst,
}
use qwen.Prelude.Dict.{get, member}
use qwen.Workflow.Lock.{acquire}
use qwen.Motion.{MotionEvent}
use qwen.TaskStore
use qwen.TaskStore.{Store, Summary}
use qwen.Ledger.{task_terminal, LedgerEvent, Ledger, record_event}
use qwen.Workflow.State.{TaskState, is_allowed, completed, failed, cancelled}
use qwen.Workflow.Orchestrator.{
  Orchestrator, Result, ok, err, advance, advance_body, advance_from, advance_event,
  append_and_read, with_lock,
}
use qwen.Workflow.Orchestrator.Coherence.{ledger-current_state}
use qwen.Events.{
  Gateway, Stamp, Stamps, Outcome, returned, raised, is_ok, is_terminal_phase, target_of,
  advance_workflow_on_event, motion_entry, terminal_entry, then_append, finish, after_motion,
  record_motion_event,
}

abbrev ends : String → LedgerEvent → Bool
ends tid e = (elim e.event_type [ task_terminal ↦ true | _ ↦ false ]) && str_eq e.task_id tid

-- Whether the events have a terminal event of the task.
unfoldable pub has_terminal : String → List LedgerEvent → Bool
has_terminal tid [] = false
has_terminal tid (e ∷ es) = ends tid e || has_terminal tid es

has_terminal-snoc :
    (tid : String) (es : List LedgerEvent) (e : LedgerEvent)
    → has_terminal tid (es ++ e ∷ []) ≡ (has_terminal tid es || ends tid e)
unfolding has_terminal
has_terminal-snoc tid [] e = ground arith
has_terminal-snoc tid (x ∷ es) e = ground (arith, has_terminal-snoc tid es e)

record_event-appends :
    (e : LedgerEvent) (l : Ledger)
    → (record_event e l).1 ≡ none
    → (record_event e l).0.events ≡ l.events ++ e ∷ []
unfolding record_event
record_event-appends e l h = ground (arith, h)

record_event-ends :
    (tid : String) (e : LedgerEvent) (l : Ledger)
    → (record_event e l).1 ≡ none
    → (has_terminal tid l.events || ends tid e) ≡ true
    → has_terminal tid (record_event e l).0.events ≡ true
record_event-ends tid e l h k =
    rw (record_event-appends e l h) (has_terminal-snoc tid l.events e ∙ k)

abbrev final_target : TaskState → Bool
final_target completed = true
final_target failed = true
final_target cancelled = true
final_target _ = false

-- A read that succeeds after an append stands on a ledger that has the event.
append_and_read-ends :
    (tid : String) (e : LedgerEvent) (w : Orchestrator)
    → ends tid e ≡ true
    → is_ok (append_and_read e tid w).1 ≡ true
    → has_terminal tid (append_and_read e tid w).0.ledger.events ≡ true
unfolding append_and_read
append_and_read-ends tid e w at =
    let (l, x) = record_event e w.ledger in
    let w' : Orchestrator = record w { ledger = l } in
    elim (Option-cases (record_event e w.ledger).1) [
      | inl q ↦
          rw (q, append_and_read)
            λ h. rw ledger-current_state (record_event-ends tid e w.ledger q (ground (arith, at)))
      | inr (y, q) ↦ rw (q, append_and_read) λ h. absurd (false≢true h)
    ]

advance_event-ends :
    (target : TaskState) → final_target target ≡ true → (advance_event target).0 ≡ task_terminal
unfolding advance_event
advance_event-ends completed h = refl
advance_event-ends failed h = refl
advance_event-ends cancelled h = refl
advance_event-ends _ h = absurd (false≢true h)

advance_from-ends :
    (tid : String) (target : TaskState) (event_id : String) (now : List ℕ) (w : Orchestrator)
    (r : Result TaskState)
    → final_target target ≡ true
    → is_ok (advance_from tid target event_id now w r).1 ≡ true
    → has_terminal tid (advance_from tid target event_id now w r).0.ledger.events ≡ true
unfolding advance_from
advance_from-ends tid target event_id now w (err x) fin = λ h. absurd (false≢true h)
advance_from-ends tid target event_id now w (ok current) fin =
    elim (Bool-cases (is_allowed current target)) [
      | inl e ↦
          rw (e, advance_from)
            (append_and_read-ends tid _ w (rw (advance_event-ends target fin) (eq_refl tid)))
      | inr e ↦ rw (e, advance_from) λ h. absurd (false≢true h)
    ]

-- A final advance that succeeds has put a terminal event into the ledger.
advance-ends :
    (tid : String) (target : TaskState) (event_id : String) (now : List ℕ) (w : Orchestrator)
    → final_target target ≡ true
    → is_ok (advance tid target event_id now w).1 ≡ true
    → has_terminal tid (advance tid target event_id now w).0.ledger.events ≡ true
unfolding advance with_lock advance_body
advance-ends tid target event_id now w fin = elim (Bool-cases (acquire tid w.locks).1) [
  | inl e ↦ rw (e, with_lock) (advance_from-ends tid target event_id now _ _ fin)
  | inr e ↦ rw (e, with_lock) λ h. absurd (false≢true h)
]

terminal-cases :
    (phase : String)
    → is_terminal_phase phase ≡ true
    → (("done" ≡ phase) ⊎ ("failed" ≡ phase)) ⊎ ("cancelled" ≡ phase)
unfolding is_terminal_phase member
terminal-cases phase h = elim (Bool-cases (str_eq "done" phase)) [
  | inl e ↦ inl (inl ((eq_iff "done" phase).0 e))
  | inr e ↦ elim (Bool-cases (str_eq "failed" phase)) [
    | inl f ↦ inl (inr ((eq_iff "failed" phase).0 f))
    | inr f ↦ inr ((eq_iff "cancelled" phase).0 (ground (arith, e, f, h)))
  ]
]

abbrev final_option : Option TaskState → Bool
final_option none = false
final_option (some target) = final_target target

target-is_final :
    (phase : String) → is_terminal_phase phase ≡ true → final_option (target_of phase) ≡ true
unfolding target_of get
target-is_final phase h = elim (terminal-cases phase h) [
  | inl (inl e) ↦ subst (λ p. final_option (target_of p) ≡ true) e refl
  | inl (inr e) ↦ subst (λ p. final_option (target_of p) ≡ true) e refl
  | inr e ↦ subst (λ p. final_option (target_of p) ≡ true) e refl
]

advance_on-ends :
    (tid phase : String) (stamp : Stamp) (w : Orchestrator)
    → is_terminal_phase phase ≡ true
    → (advance_workflow_on_event tid phase stamp w).1 ≡ true
    → has_terminal tid (advance_workflow_on_event tid phase stamp w).0.ledger.events ≡ true
unfolding advance_workflow_on_event
advance_on-ends tid phase stamp w fin = elim (Bool-cases (str_eq tid "")) [
  | inl e ↦ rw (e, advance_workflow_on_event) λ h. absurd (false≢true h)
  | inr e ↦ elim (Option-cases (target_of phase)) [
    | inl q ↦ rw (e, q, advance_workflow_on_event) λ h. absurd (false≢true h)
    | inr (target, q) ↦
        rw (e, q, advance_workflow_on_event)
          (advance-ends tid target stamp.event_id stamp.now w
            (subst (λ o. final_option o ≡ true) q (target-is_final phase fin)))
  ]
]

abbrev pub is_returned {ℓ} : {A : Type ℓ} → Outcome A → Bool
is_returned (returned a) = true
is_returned (raised x) = false

then_append-ends :
    (tid : String) (e : LedgerEvent) (rest : Gateway → Gateway × Outcome Summary) (g : Gateway)
    → ((h : Gateway)
        → (record_event e g.workflow.ledger).1 ≡ none
        → h.workflow.ledger.events ≡ g.workflow.ledger.events ++ e ∷ []
        → is_returned (rest h).1 ≡ true
        → has_terminal tid (rest h).0.workflow.ledger.events ≡ true)
    → is_returned (then_append e rest g).1 ≡ true
    → has_terminal tid (then_append e rest g).0.workflow.ledger.events ≡ true
unfolding then_append
then_append-ends tid e rest g k = elim (Option-cases (record_event e g.workflow.ledger).1) [
  | inl q ↦ rw (q, then_append) (k _ q (record_event-appends e g.workflow.ledger q))
  | inr (x, q) ↦ rw (q, then_append) λ h. absurd (false≢true h)
]

after_motion-ends :
    (e : MotionEvent) (stamps : Stamps) (advanced : Bool) (summary : Summary) (g : Gateway)
    → is_terminal_phase e.phase ≡ true
    → (advanced ≡ true → has_terminal e.task_id g.workflow.ledger.events ≡ true)
    → is_returned (after_motion e stamps advanced summary g).1 ≡ true
    → has_terminal e.task_id (after_motion e stamps advanced summary g).0.workflow.ledger.events
      ≡ true
unfolding after_motion finish
after_motion-ends e stamps true summary g fin before = rw fin λ h. before refl
after_motion-ends e stamps false summary g fin before = rw fin (
    then_append-ends e.task_id (terminal_entry e stamps.of_terminal) (finish e summary) g
      λ h q at _. rw at (
        has_terminal-snoc e.task_id g.workflow.ledger.events (terminal_entry e stamps.of_terminal)
        ∙ ground (arith, eq_refl e.task_id)))

-- When `record_motion_event` returns from a terminal event, the ledger has a `task_terminal` event of the
-- task, whether or not the workflow allowed the transition.
pub terminal_recorded :
    (e : MotionEvent) (stamps : Stamps) (g : Gateway)
    → is_terminal_phase e.phase ≡ true
    → is_returned (record_motion_event e stamps g).1 ≡ true
    → has_terminal e.task_id (record_motion_event e stamps g).0.workflow.ledger.events ≡ true
unfolding record_motion_event
terminal_recorded e stamps g fin =
    let (store, summary) = TaskStore.record_motion_event e g.store in
    let (w, advanced) = advance_workflow_on_event e.task_id e.phase stamps.of_advance g.workflow in
    then_append-ends e.task_id (motion_entry e stamps.of_motion)
      (after_motion e stamps advanced summary) (record g { store = store; workflow = w })
      λ h q at. after_motion-ends e stamps advanced summary h fin λ ok. rw at (
        has_terminal-snoc e.task_id w.ledger.events (motion_entry e stamps.of_motion)
        ∙ ground (arith, advance_on-ends e.task_id e.phase stamps.of_advance g.workflow fin ok))
