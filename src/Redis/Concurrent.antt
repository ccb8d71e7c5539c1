-- ===== src/Redis/Concurrent.antt =====
-- The methods of the Redis store that several processes run at once on one task, command by command.
mod Tests
use qwen.Prelude.{
  ℕ, suc, ◌+◌, ◌≤◌, ◌<◌, ◌≡◌, refl, sym, ap, subst, ◌∙◌, String, Bool, true, false, not, Option,
  none, some, List, [], ◌∷◌, ◌++◌, inl, inr, arith, ◌==◌, if◌then◌else◌, str_eq, Bool-cases, All,
  All-append, All-parts,
}
use qwen.Motion.{MotionEvent}
use qwen.Redis.{Task, TaskState, Server}
use qwen.Redis.Cas.{bump_version, cas_round}
use qwen.Redis.Cas.Races.{
  World, Run, start, loads, commits, appends, elsewhere, replay, appended_state, Run-replay,
}
use qwen.Redis.Queue.{
  set_task, mark_failed, dispatch, requeue, mark_dispatched, count_retry, reset_for_retry,
  without_start,
}
use qwen.Redis.Processing.{is_stale_ack, ack_processing, expired, dead_letter, recovered}

-- A call of a method that changes a task's state by `_cas_update`.
pub data Call : Type 0 where
  enqueues : Task → Call
  rejects : Call
  pops : Task → ℕ → Call
  requeues : Task → Call
  dispatches : Call
  counts : Call
  resets : Call
  acks : Call
  expires : Call
  abandons : Call
  recovers : ℕ → Call

unfoldable pub mutator : Call → TaskState → TaskState
mutator (enqueues t) = set_task t "queued"
mutator rejects = mark_failed
mutator (pops t now) = dispatch t now
mutator (requeues t) = requeue t
mutator dispatches = mark_dispatched
mutator counts = count_retry
mutator resets = reset_for_retry
mutator acks = without_start
mutator expires = expired
mutator abandons = dead_letter
mutator (recovers now) = recovered now

mutator-version : (call : Call) (state : TaskState) → (mutator call state).version ≡ state.version
unfolding mutator
mutator-version (enqueues t) state = refl
mutator-version rejects state = refl
mutator-version (pops t now) state = refl
mutator-version (requeues t) state = refl
mutator-version dispatches state = refl
mutator-version counts state = refl
mutator-version resets state = refl
mutator-version acks state = refl
mutator-version expires state = ground arith
mutator-version abandons state = refl
mutator-version (recovers now) state = refl

-- A change that keeps or raises the dispatch generation.
Grows : (TaskState → TaskState) → Type 0
Grows f = (state : TaskState) → state.dispatch_gen ≤ (f state).dispatch_gen

mutator-Grows :
    (call : Call) (state : TaskState) → state.dispatch_gen ≤ (mutator call state).dispatch_gen
unfolding mutator
mutator-Grows (enqueues t) state = omega arith
mutator-Grows rejects state = omega arith
mutator-Grows (pops t now) state = omega arith
mutator-Grows (requeues t) state = omega arith
mutator-Grows dispatches state = omega arith
mutator-Grows counts state = omega arith
mutator-Grows resets state = omega arith
mutator-Grows acks state = omega arith
mutator-Grows expires state = ground arith
mutator-Grows abandons state = omega arith
mutator-Grows (recovers now) state = omega arith

replay-Grows :
    (changes : List (TaskState → TaskState)) (state : TaskState)
    → All Grows changes
    → state.dispatch_gen ≤ (replay changes state).dispatch_gen
unfolding replay Grows
replay-Grows [] state h = omega arith
replay-Grows (change ∷ changes) state h =
    omega (arith, h.0 state, replay-Grows changes (change state) h.1)

replay-append :
    (before after : List (TaskState → TaskState)) (state : TaskState)
    → replay (before ++ after) state ≡ replay after (replay before state)
unfolding replay
replay-append [] after state = refl
replay-append (change ∷ before) after state = replay-append before after (change state)

-- A recovery that was written among other changes has raised the generation.
recovered-raises :
    (before after : List (TaskState → TaskState)) (now : ℕ) (first : TaskState)
    → All Grows (before ++ (λ (s : TaskState). bump_version (recovered now s)) ∷ after)
    → first.dispatch_gen
      < (replay
          (before ++ (λ (s : TaskState). bump_version (recovered now s)) ∷ after)
          first).dispatch_gen
unfolding replay Grows
recovered-raises before after now first h =
    let parts =
      All-parts Grows before ((λ (s : TaskState). bump_version (recovered now s)) ∷ after) h in
    rw (replay-append before ((λ (s : TaskState). bump_version (recovered now s)) ∷ after) first) (
      omega (
        arith,
        replay-Grows before first parts.0,
        replay-Grows after (bump_version (recovered now (replay before first))) parts.1.1,
      ))

module _ (r : Server) (tid : String) (calls : ℕ → Call) where
  abbrev pub mutators : ℕ → TaskState → TaskState
  mutators c = mutator (calls c)

  module _ (w : World r tid mutators) where
    Run-Grows :
        {done : List (TaskState → TaskState)} {v : World r tid mutators}
        → Run r tid mutators w done v
        → All Grows done
    unfolding Grows
    Run-Grows start = tt
    Run-Grows (loads c run) = Run-Grows run
    Run-Grows (commits {done} {v} c state q run) =
        let h = Run-Grows run in
        elim (Bool-cases (cas_round r tid (mutators c) state v.table).1) [
          | inl e ↦ rw e (All-append Grows done _ h (mutator-Grows (calls c), tt))
          | inr e ↦ rw e h
        ]
    Run-Grows (appends {done} event status run) =
        All-append Grows done _ (Run-Grows run) (λ state. ground arith, tt)
    Run-Grows (elsewhere table same run) = Run-Grows run

    -- Whatever methods run at once on a task, command by command in any order, an ack with a generation
    -- of the start or older is refused and changes nothing once a recovery of the task was written.
    -- Conditions: the task has a state at the start, no call has read it yet, and nothing but these
    -- calls and event appends writes it.
    pub late_ack_refused :
        (first : TaskState) (known : r.hget tid w.table ≡ some first)
        (idle : (c : ℕ) → w.read c ≡ none) (before after : List (TaskState → TaskState)) (now g : ℕ)
        (strict : Bool) (d : String) {v : World r tid mutators}
        → Run r tid mutators w
            (before ++ (λ (s : TaskState). bump_version (recovered now s)) ∷ after)
            v
        → g ≤ first.dispatch_gen
        → ack_processing r strict d tid (some g) v.table ≡ (v.table, false)
    unfolding ack_processing
    late_ack_refused first known idle before after now g strict d {v} run old =
        let raised = recovered-raises before after now first (Run-Grows run) in
        let held =
          Run-replay r tid mutators (λ c. mutator-version (calls c)) first w known idle run in
        rw held (ground (arith, raised))
