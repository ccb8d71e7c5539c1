-- ===== src/Workflow/Orchestrator/Advance.antt =====
-- `advance` and the readers of a task's state, over a coherent orchestrator.
use qwen.Prelude.{ℕ, String, ◌≡◌, refl, true, false, List, arith, eq_refl, eq_iff}
use qwen.Prelude.Dict.{put, get-put}
use qwen.Ledger.{Ledger, record_event}
use qwen.Workflow.State.{TaskState, is_allowed}
use qwen.Workflow.Lock.{Locks, acquire, release, is_held}
use qwen.Workflow.Orchestrator.{
  Orchestrator, Result, ok, err, locked, invalid_transition, advance, advance_body, with_lock,
}
use qwen.Workflow.Orchestrator.Replay.{IsNew, IsLatest}
use qwen.Workflow.Orchestrator.Coherence.{IsCoherent, ledger_state}
use qwen.Workflow.Orchestrator.Body.{
  reached, event_of_advance, IsOutcome, advance_body-IsOutcome, advance_body-refused,
}

-- The orchestrator as a body sees it, with the task's lock taken.
abbrev pub taken : String → Orchestrator → Orchestrator
taken tid w = record w { locks = put tid true w.locks }

pub taken-IsCoherent : (tid : String) (w : Orchestrator) → IsCoherent w → IsCoherent (taken tid w)
taken-IsCoherent tid w c = record { seen = c.seen; said = c.said }

released-IsCoherent :
    (l : Locks) (w : Orchestrator) → IsCoherent w → IsCoherent (record w { locks = l })
released-IsCoherent l w c = record { seen = c.seen; said = c.said }

is_held-release :
    (tid k : String) (locks : Locks)
    → is_held tid locks ≡ false
    → is_held k (release tid (put tid true locks)) ≡ is_held k locks
unfolding release
is_held-release tid k locks free = ground (
  arith,
  free,
  get-put tid tid true locks,
  eq_refl tid,
  get-put tid k false (put tid true locks),
  get-put tid k true locks,
  eq_iff tid k,
)

-- The lock's frame around a body that leaves the locks alone: the result and the ledger are the body's,
-- the locks are as before, and the cache is coherent.
pub with_lock_lem :
    (tid k : String) (body : Orchestrator → Orchestrator × Result TaskState) (w : Orchestrator)
    (l : Ledger) (r : Result TaskState)
    → is_held tid w.locks ≡ false
    → IsOutcome l (put tid true w.locks) r (body (taken tid w))
    → let (w', r') = with_lock tid body w in
      (r' ≡ r) × (w'.ledger ≡ l) × (is_held k w'.locks ≡ is_held k w.locks) × IsCoherent w'
unfolding with_lock acquire
with_lock_lem tid k body w l r free out =
    let b = body (taken tid w) in
    rw free (
      out.result_is,
      out.ledger_is,
      rw out.locks_are (is_held-release tid k w.locks free),
      released-IsCoherent (release tid b.0.locks) b.0 out.coherent,
    )

module _ (tid k : String) (current target : TaskState) (event_id : String) (now : List ℕ)
    (w : Orchestrator) (c : IsCoherent w) (free : is_held tid w.locks ≡ false)
    (says : ledger_state tid w.ledger ≡ ok current) where
  -- An allowed advance of a known task whose lock is free, with a coherent cache, a new event id and
  -- no clock that went back, succeeds: it appends the event of the advance and nothing else, returns the state reached,
  -- which is `current` again where the target is `completed` and the target otherwise, frees the lock
  -- and keeps the cache coherent.
  pub advance_exact :
      is_allowed current target ≡ true
      → IsNew (event_of_advance tid target event_id now w.ledger) w.ledger
      → IsLatest (event_of_advance tid target event_id now w.ledger) w.ledger
      → let (w', r) = advance tid target event_id now w in
        (r ≡ ok (reached current target))
        × (w'.ledger
            ≡ (record_event (event_of_advance tid target event_id now w.ledger) w.ledger).0)
        × (is_held k w'.locks ≡ is_held k w.locks)
        × IsCoherent w'
  unfolding advance
  advance_exact may new latest =
      with_lock_lem tid k (advance_body tid target event_id now) w _ _ free (
        advance_body-IsOutcome tid current target event_id now (taken tid w)
          (taken-IsCoherent tid w c) says may new latest)

  -- Where the task's lock is free and the cache coherent, an advance that `VALID_TRANSITIONS` does not
  -- have from the state in the ledger is refused with the two states: the ledger and the locks stay as
  -- they were and the cache stays coherent.
  pub advance_refused :
      is_allowed current target ≡ false
      → let (w', r) = advance tid target event_id now w in
        (r ≡ err (invalid_transition current target))
        × (w'.ledger ≡ w.ledger)
        × (is_held k w'.locks ≡ is_held k w.locks)
        × IsCoherent w'
  unfolding advance
  advance_refused may = with_lock_lem tid k (advance_body tid target event_id now) w _ _ free (
      advance_body-refused tid current target event_id now (taken tid w) (taken-IsCoherent tid w c)
        says may)

-- While another holder has a task's lock, an advance of the task fails, and leaves the ledger, the
-- cache and every lock as they were.
pub advance_locked :
    (tid k : String) (target : TaskState) (event_id : String) (now : List ℕ) (w : Orchestrator)
    → is_held tid w.locks ≡ true
    → let (w', r) = advance tid target event_id now w in
      (r ≡ err locked)
      × (w'.ledger ≡ w.ledger)
      × (w'.cache ≡ w.cache)
      × (is_held k w'.locks ≡ is_held k w.locks)
unfolding advance with_lock acquire
advance_locked tid k target event_id now w held =
    rw held (refl, refl, refl, ground (arith, held, get-put tid k true w.locks, eq_iff tid k))
