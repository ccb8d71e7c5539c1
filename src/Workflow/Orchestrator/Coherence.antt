-- ===== src/Workflow/Orchestrator/Coherence.antt =====
-- The cache of the orchestrator against the ledger.
use qwen.Prelude.{
  ℕ, ◌≤◌, String, ◌≡◌, refl, sym, subst, ap, ◌⊎◌, ◌∙◌, Option, none, some, List, [], ◌∷◌, arith,
  ◌==◌, if◌then◌else◌, eq_refl, eq_iff, length, take, take-append_le, take-length, length-append,
  Bool-cases, Option-cases, inl, inr,
}
use qwen.Prelude.Dict.{get, put, get-put}
use qwen.Prelude.Sort.{sort}
use qwen.Ledger.{LedgerEvent, Ledger, record_event, events_for_task}
use qwen.Ledger.Projection.{earlier, status_after_event, sorted_events, rebuild_state}
use qwen.Workflow.State.{TaskState, parse_state}
use qwen.Workflow.Orchestrator.{
  Orchestrator, Result, WorkflowError, ok, err, unknown_task, replayed_state, status_to_task_state,
  current_state, cached, keep_state,
}
use qwen.Workflow.Orchestrator.Replay.{
  final_status, status-rebuild_state, event_count-rebuild_state, IsNew, IsLatest,
  events_for_task-append, workflow_state, replayed_state_lem, workflow_state-append,
}

-- The state that a list of events in the order of arrival says.
pub state_of_events : List LedgerEvent → Result TaskState
state_of_events es =
    status_to_task_state (final_status "unknown" (sort earlier es)) (sort earlier es)

-- What the ledger says of a task, with no cache: the specification of `_current_state`.
unfoldable pub ledger_state : String → Ledger → Result TaskState
ledger_state tid l =
    if length (events_for_task tid l) == 0 then err unknown_task else replayed_state tid l

replayed_state-of_events :
    (tid : String) (l : Ledger) → replayed_state tid l ≡ state_of_events (events_for_task tid l)
unfolding replayed_state state_of_events sorted_events
replayed_state-of_events tid l = rw status-rebuild_state

-- Every cached state is what the task's first events said, as many as the cache says it has seen.
pub record IsCoherent (w : Orchestrator) : Type 0 where
  pub seen :
      (tid : String) (n : ℕ) (s : TaskState)
      → get tid w.cache ≡ some (n, s)
      → n ≤ length (events_for_task tid w.ledger)
  pub said :
      (tid : String) (n : ℕ) (s : TaskState)
      → get tid w.cache ≡ some (n, s)
      → state_of_events (take n (events_for_task tid w.ledger)) ≡ ok s

pub cached_lem :
    (n : ℕ) (o : Option (ℕ × TaskState)) (s : TaskState) → cached n o ≡ some s → o ≡ some (n, s)
cached_lem n (some (m, t)) s h = ground arith
cached_lem n none s h = cc

cached_state :
    (tid : String) (w : Orchestrator) (s : TaskState)
    → IsCoherent w
    → cached (rebuild_state tid w.ledger).event_count (get tid w.cache) ≡ some s
    → replayed_state tid w.ledger ≡ ok s
cached_state tid w s c h =
    let events = events_for_task tid w.ledger in
    replayed_state-of_events tid w.ledger
    ∙ ap state_of_events (sym (take-length events))
    ∙ c.said tid (length events) s
        (cached_lem (length events) (get tid w.cache) s (rw event_count-rebuild_state at h))

-- In a coherent orchestrator the cache is not seen: the state that is read is what the ledger says.
pub current_state_lem :
    (tid : String) (w : Orchestrator)
    → IsCoherent w
    → (current_state tid w).1 ≡ ledger_state tid w.ledger
unfolding current_state ledger_state
current_state_lem tid w c =
    let n = (rebuild_state tid w.ledger).event_count in
    elim (Option-cases (cached n (get tid w.cache))) [
      | inl e ↦ ground (arith, e, event_count-rebuild_state tid w.ledger)
      | inr (s, e) ↦
          ground (arith, e, event_count-rebuild_state tid w.ledger, cached_state tid w s c e)
    ]

Result-cases :
    (r : Result TaskState) → ((s : TaskState) × (r ≡ ok s)) ⊎ ((x : WorkflowError) × (r ≡ err x))
Result-cases (ok s) = inl (s, refl)
Result-cases (err x) = inr (x, refl)

-- A read changes nothing, or it caches the state that the ledger says.
pub current_state_cases :
    (tid : String) (w : Orchestrator)
    → ((current_state tid w).0 ≡ w)
      ⊎ ((s : TaskState) × (replayed_state tid w.ledger ≡ ok s)
          × ((current_state tid w).0
              ≡ record w { cache = put tid (length (events_for_task tid w.ledger), s) w.cache }))
unfolding current_state
current_state_cases tid w =
    let n = (rebuild_state tid w.ledger).event_count in
    elim (Bool-cases (n == 0)) [
      | inl z ↦ inl (ground (arith, z))
      | inr z ↦ elim (Option-cases (cached n (get tid w.cache))) [
        | inr (s, e) ↦ inl (ground (arith, z, e))
        | inl e ↦ elim (Result-cases (replayed_state tid w.ledger)) [
          | inl (s, q) ↦ inr (s, q, ground (arith, z, e, q, event_count-rebuild_state tid w.ledger))
          | inr (x, q) ↦ inl (ground (arith, z, e, q))
        ]
      ]
    ]

-- What a read returns: an error, the cached state or what the ledger says.
pub current_state_result :
    (tid : String) (w : Orchestrator)
    → ((current_state tid w).1 ≡ err unknown_task)
      ⊎ ((n : ℕ) × (s : TaskState) × (get tid w.cache ≡ some (n, s))
          × ((current_state tid w).1 ≡ ok s))
      ⊎ ((current_state tid w).1 ≡ replayed_state tid w.ledger)
unfolding current_state
current_state_result tid w =
    let n = (rebuild_state tid w.ledger).event_count in
    elim (Bool-cases (n == 0)) [
      | inl z ↦ inl (ground (arith, z))
      | inr z ↦ elim (Option-cases (cached n (get tid w.cache))) [
        | inr (s, e) ↦ inr (inl (n, s, cached_lem n _ s e, ground (arith, z, e)))
        | inl e ↦ inr (inr (ground (arith, z, e)))
      ]
    ]

pub ledger-current_state :
    (tid : String) (w : Orchestrator) → (current_state tid w).0.ledger ≡ w.ledger
ledger-current_state tid w = ground (arith, current_state_cases tid w)

pub locks-current_state :
    (tid : String) (w : Orchestrator) → (current_state tid w).0.locks ≡ w.locks
locks-current_state tid w = ground (arith, current_state_cases tid w)

store-IsCoherent :
    (tid : String) (w : Orchestrator) (s : TaskState)
    → replayed_state tid w.ledger ≡ ok s
    → IsCoherent w
    → IsCoherent (record w { cache = put tid (length (events_for_task tid w.ledger), s) w.cache })
store-IsCoherent tid w s e c =
    let n = length (events_for_task tid w.ledger) in
    record {
      seen = λ k m t p. ground (arith, get-put tid k (n, s) w.cache, eq_iff tid k, c.seen k m t);
      said = λ k m t p. ground (
        arith,
        get-put tid k (n, s) w.cache,
        eq_iff tid k,
        take-length (events_for_task tid w.ledger),
        replayed_state-of_events tid w.ledger,
        c.said k m t,
      );
    }

pub current_state-IsCoherent :
    (tid : String) (w : Orchestrator) → IsCoherent w → IsCoherent (current_state tid w).0
current_state-IsCoherent tid w c = elim (current_state_cases tid w) [
  | inl e ↦ subst IsCoherent (sym e) c
  | inr (s, says, e) ↦ subst IsCoherent (sym e) (store-IsCoherent tid w s says c)
]

-- An append of a new event by anyone, the orchestrator or another writer of the ledger, keeps the
-- cache coherent.
pub append-IsCoherent :
    (e : LedgerEvent) (w : Orchestrator)
    → IsNew e w.ledger
    → IsCoherent w
    → IsCoherent (record w { ledger = (record_event e w.ledger).0 })
append-IsCoherent e w h c = record {
  seen = λ tid n s p. ground (
    arith,
    events_for_task-append tid e w.ledger h,
    c.seen tid n s p,
    length-append (events_for_task tid w.ledger) (e ∷ []),
  );
  said = λ tid n s p.
      ap state_of_events (
        ground (
          arith,
          events_for_task-append tid e w.ledger h,
          take-append_le n (events_for_task tid w.ledger) (e ∷ []) (c.seen tid n s p),
        ))
      ∙ c.said tid n s p;
}

workflow_state-of_ledger :
    (tid : String) (l : Ledger) (s : TaskState)
    → ledger_state tid l ≡ ok s
    → workflow_state (sorted_events tid l) ≡ some s
unfolding ledger_state
workflow_state-of_ledger tid l s h = elim (Option-cases (workflow_state (sorted_events tid l))) [
  | inl e ↦ ground (arith, replayed_state_lem tid l, e)
  | inr (t, e) ↦ ground (arith, replayed_state_lem tid l, e)
]

-- One more event of the task, the latest, leads from the state that the ledger says to the state that
-- its status text names, if it names one.
pub ledger_state-append :
    (e : LedgerEvent) (l : Ledger) (s t : TaskState)
    → IsNew e l
    → IsLatest e l
    → ledger_state e.task_id l ≡ ok s
    → keep_state
        (parse_state (status_after_event e (final_status "unknown" (sorted_events e.task_id l))))
        (some s)
      ≡ some t
    → ledger_state e.task_id (record_event e l).0 ≡ ok t
unfolding ledger_state
ledger_state-append e l s t new latest says leads =
    let l' = (record_event e l).0 in
    ground (
      arith,
      replayed_state_lem e.task_id l',
      workflow_state-append e l new latest,
      workflow_state-of_ledger e.task_id l s says,
      leads,
      events_for_task-append e.task_id e l new,
      eq_refl e.task_id,
      length-append (events_for_task e.task_id l) (e ∷ []),
    )
