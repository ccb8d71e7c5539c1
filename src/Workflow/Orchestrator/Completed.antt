-- ===== src/Workflow/Orchestrator/Completed.antt =====
-- The state `completed` is in the transition table, and the orchestrator never reports it.
use qwen.Prelude.{
  ℕ, String, ◌≡◌, ◌≢◌, refl, sym, subst, ◌⊎◌, ◌∙◌, true, false, Option, none, some, List, [], ◌∷◌,
  ◌++◌, arith, str_eq, eq_iff, All, All-append, All-select, Option-cases, Bool-cases, List-cases,
  inl, inr,
}
use qwen.Prelude.Dict.{get, put, get-put, member}
use qwen.Prelude.Sort.{All-sort}
use qwen.Ledger.{LedgerEvent, Ledger, record_event, events_for_task}
use qwen.Ledger.Projection.{sorted_events, earlier, status_after_event}
use qwen.Workflow.State.{
  TaskState, completed, dispatched, value, parse_state, parse_state-value, is_allowed,
}
use qwen.Workflow.Lock.{Locks, acquire, release, is_held}
use qwen.Workflow.Orchestrator.{
  Orchestrator, Result, ok, err, current_state, last_state, keep_state, replayed_state,
  append_and_read, register_body, advance_from, with_lock, advance_event,
}
use qwen.Workflow.Orchestrator.Replay.{workflow_state, replayed_state_lem}
use qwen.Workflow.Orchestrator.Coherence.{current_state_cases, current_state_result}
use qwen.Workflow.Orchestrator.Body.{event_of_advance}
use qwen.Workflow.Orchestrator.Register.{created_event}

-- The event does not make a status `completed`. The phases that devices report are `accepted`,
-- `running`, `done`, `failed`, `cancelled` and their like.
pub record IsPlain (e : LedgerEvent) : Type 0 where
  pub keeps :
      (c : String)
      → str_eq c "completed" ≡ false
      → str_eq (status_after_event e c) "completed" ≡ false

parse-not_completed :
    (text : String) → str_eq text "completed" ≡ false → parse_state text ≢ some completed
parse-not_completed text h e =
    unfold value in
    ground
      (arith, parse_state-value text completed e, eq_iff text "completed", eq_iff "completed" text)

last_state-not_completed :
    (c : String) (last : Option TaskState) (es : List LedgerEvent)
    → str_eq c "completed" ≡ false
    → last ≢ some completed
    → All IsPlain es
    → last_state c last es ≢ some completed
unfolding last_state
last_state-not_completed c last [] h k plain = k
last_state-not_completed c last (e ∷ es) h k plain =
    let c' = status_after_event e c in
    let h' = plain.0.keeps c h in
    last_state-not_completed c' (keep_state (parse_state c') last) es h'
      (λ q. ground (arith, parse-not_completed c' h', k)) plain.1

replayed-not_completed :
    (tid : String) (l : Ledger) → All IsPlain l.events → replayed_state tid l ≢ ok completed
replayed-not_completed tid l plain e =
    let events = sorted_events tid l in
    let plain' : All IsPlain events =
      unfold sorted_events events_for_task in
      All-sort IsPlain earlier _ (All-select IsPlain (λ x. str_eq x.task_id tid) l.events plain) in
    let not_last : workflow_state events ≢ some completed =
      unfold workflow_state in
      last_state-not_completed "unknown" none events refl (λ q. cc) plain' in
    ground (arith, replayed_state_lem tid l, not_last)

-- The orchestrator's ledger holds plain events only, and its cache no `completed`.
pub record NeverCompleted (w : Orchestrator) : Type 0 where
  pub plain : All IsPlain w.ledger.events
  pub no_cached : (tid : String) (n : ℕ) → get tid w.cache ≢ some (n, completed)

pub record IsQuiet (p : Orchestrator × Result TaskState) : Type 0 where
  pub never : NeverCompleted p.0
  pub result : p.1 ≢ ok completed

cache-NeverCompleted :
    (tid : String) (n : ℕ) (s : TaskState) (w : Orchestrator)
    → s ≢ completed
    → NeverCompleted w
    → NeverCompleted (record w { cache = put tid (n, s) w.cache })
cache-NeverCompleted tid n s w h never = record {
  plain = never.plain;
  no_cached = λ k m q. ground (arith, get-put tid k (n, s) w.cache, never.no_cached k m);
}

pub current_state-IsQuiet :
    (tid : String) (w : Orchestrator) → NeverCompleted w → IsQuiet (current_state tid w)
current_state-IsQuiet tid w h = record {
  never = elim (current_state_cases tid w) [
    | inl e ↦ subst NeverCompleted (sym e) h
    | inr (s, says, e) ↦ subst NeverCompleted (sym e) (
        cache-NeverCompleted tid _ s w
          (λ q. replayed-not_completed tid w.ledger h.plain (ground (arith, says, q))) h)
  ];
  result = λ q. elim (current_state_result tid w) [
    | inl e ↦ ground (arith, e, q)
    | inr (inl (n, s, e, f)) ↦ h.no_cached tid n (ground (arith, e, f, q))
    | inr (inr e) ↦ replayed-not_completed tid w.ledger h.plain (sym e ∙ q)
  ];
}

record_event_cases :
    (e : LedgerEvent) (l : Ledger)
    → ((record_event e l).0.events ≡ l.events) ⊎ ((record_event e l).0.events ≡ l.events ++ e ∷ [])
unfolding record_event
record_event_cases e l = elim (Bool-cases (str_eq e.event_id "")) [
  | inl a ↦ inl (ground (arith, a))
  | inr a ↦ elim (Bool-cases (str_eq e.task_id "")) [
    | inl b ↦ inl (ground (arith, a, b))
    | inr b ↦ elim (Bool-cases (member e.event_id l.event_ids)) [
      | inl c ↦ inl (ground (arith, a, b, c))
      | inr c ↦ inr (ground (arith, a, b, c))
    ]
  ]
]

pub record_event-IsPlain :
    (e : LedgerEvent) (l : Ledger)
    → IsPlain e
    → All IsPlain l.events
    → All IsPlain (record_event e l).0.events
record_event-IsPlain e l p h = elim (record_event_cases e l) [
  | inl q ↦ rw q h
  | inr q ↦ rw q (All-append IsPlain l.events (e ∷ []) h (p, tt))
]

append_and_read-IsQuiet :
    (e : LedgerEvent) (tid : String) (w : Orchestrator)
    → IsPlain e
    → NeverCompleted w
    → IsQuiet (append_and_read e tid w)
unfolding append_and_read
append_and_read-IsQuiet e tid w p h = elim (Option-cases (record_event e w.ledger).1) [
  | inl q ↦
      rw (q, append_and_read)
        (current_state-IsQuiet tid (record w { ledger = (record_event e w.ledger).0 })
          (record { plain = record_event-IsPlain e w.ledger p h.plain; no_cached = h.no_cached }))
  | inr (x, q) ↦ rw (q, append_and_read) (record { never = h; result = λ r. cc })
]

advance-IsPlain :
    (tid : String) (target : TaskState) (event_id : String) (now : List ℕ) (l : Ledger)
    → IsPlain (event_of_advance tid target event_id now l)
unfolding status_after_event advance_event value
advance-IsPlain tid dispatched event_id now l = record { keeps = λ c h. refl }
advance-IsPlain tid _ event_id now l = record { keeps = λ c h. refl }

created-IsPlain :
    (tid device_id task_device event_id : String) (now : List ℕ)
    → IsPlain (created_event tid device_id task_device event_id now)
unfolding status_after_event
created-IsPlain tid device_id task_device event_id now = record { keeps = λ c h. refl }

pub locks-NeverCompleted :
    (l : Locks) (w : Orchestrator) → NeverCompleted w → NeverCompleted (record w { locks = l })
locks-NeverCompleted l w h = record { plain = h.plain; no_cached = h.no_cached }

pub with_lock-IsQuiet :
    (tid : String) (body : Orchestrator → Orchestrator × Result TaskState) (w : Orchestrator)
    → NeverCompleted w
    → IsQuiet (body (record w { locks = put tid true w.locks }))
    → IsQuiet (with_lock tid body w)
unfolding with_lock acquire
with_lock-IsQuiet tid body w h q =
    let b = body (record w { locks = put tid true w.locks }) in
    elim (Bool-cases (is_held tid w.locks)) [
      | inl held ↦
          rw held
            (record { never = locks-NeverCompleted (put tid true w.locks) w h; result = λ r. cc })
      | inr free ↦ rw free (record {
        never = locks-NeverCompleted (release tid b.0.locks) b.0 q.never;
        result = q.result;
      })
    ]

pub advance_from-IsQuiet :
    (tid : String) (target : TaskState) (event_id : String) (now : List ℕ) (w : Orchestrator)
    (r : Result TaskState)
    → NeverCompleted w
    → IsQuiet (advance_from tid target event_id now w r)
unfolding advance_from
advance_from-IsQuiet tid target event_id now w (err x) h = record { never = h; result = λ r. cc }
advance_from-IsQuiet tid target event_id now w (ok current) h =
    elim (Bool-cases (is_allowed current target)) [
      | inl may ↦ rw may (
          append_and_read-IsQuiet (event_of_advance tid target event_id now w.ledger) tid w
            (advance-IsPlain tid target event_id now w.ledger) h)
      | inr may ↦ rw may (record { never = h; result = λ r. cc })
    ]

pub register_body-IsQuiet :
    (tid device_id task_device event_id : String) (now : List ℕ) (w : Orchestrator)
    → NeverCompleted w
    → IsQuiet (register_body tid device_id task_device event_id now w)
unfolding register_body
register_body-IsQuiet tid device_id task_device event_id now w h =
    elim (List-cases (sorted_events tid w.ledger)) [
      | inl q ↦
          rw (q, register_body)
            (append_and_read-IsQuiet (created_event tid device_id task_device event_id now) tid w
              (created-IsPlain tid device_id task_device event_id now) h)
      | inr (e, es, q) ↦ rw (q, register_body) (record { never = h; result = λ r. cc })
    ]
