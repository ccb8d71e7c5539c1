-- ===== src/Redis/Cas/Races.antt =====
-- Several clients that update the state of one task at once. Each client's round of `_cas_update` is
-- two commands: it reads the state, and later it tries to write; between the two the other clients run.
use qwen.Prelude.{
  ℕ, ◌+◌, ◌≤◌, ◌<◌, ◌≡◌, refl, ap, ◌∙◌, String, Bool, true, false, Option, none, some, List, [],
  ◌∷◌, ◌++◌, ◌⊎◌, inl, inr, arith, ◌==◌, if◌then◌else◌, eq_refl, Bool-cases,
}
use qwen.Motion.{MotionEvent}
use qwen.Redis.{TaskState, Server}
use qwen.Redis.Cas.{
  bump_version, with_status, cas_lua, cas_write_state, cas_round, append_event_atomic,
}

-- The changes that are made to a state, one after the other.
unfoldable pub replay : List (TaskState → TaskState) → TaskState → TaskState
replay [] state = state
replay (change ∷ changes) state = replay changes (change state)

replay-snoc :
    (changes : List (TaskState → TaskState)) (change : TaskState → TaskState) (state : TaskState)
    → replay (changes ++ change ∷ []) state ≡ change (replay changes state)
unfolding replay
replay-snoc [] change state = refl
replay-snoc (c ∷ changes) change state = replay-snoc changes change (c state)

abbrev pub appended_state : MotionEvent → String → TaskState → TaskState
appended_state event status state =
    bump_version (record (with_status status state) { events = state.events ++ event ∷ [] })

module _ (r : Server) (tid : String) (mutator : ℕ → TaskState → TaskState) where
  open r use {State, hget, hset, hget-hset}

  -- The server, and what each client has read and not yet tried to write.
  pub record World : Type 0 where
    pub table : State
    pub read : ℕ → Option TaskState

  abbrev pub set_read : (ℕ → Option TaskState) → ℕ → Option TaskState → ℕ → Option TaskState
  set_read read c o d = if d == c then o else read d

  -- What a run has done: the changes that were written, in their order.
  pub data Run (w : World) : List (TaskState → TaskState) → World → Type 0 where
    start : Run w [] w
    loads :
        {done : List (TaskState → TaskState)} {v : World} (c : ℕ)
        → Run w done v
        → Run w done (record v { read = set_read v.read c (hget tid v.table) })
    commits :
        {done : List (TaskState → TaskState)} {v : World} (c : ℕ) (state : TaskState)
        → v.read c ≡ some state
        → Run w done v
        → Run w
            (if (cas_round r tid (mutator c) state v.table).1
              then done ++ (λ (s : TaskState). bump_version (mutator c s)) ∷ []
              else done)
            (record {
              table = (cas_round r tid (mutator c) state v.table).0;
              read = set_read v.read c none;
            })
    appends :
        {done : List (TaskState → TaskState)} {v : World} (event : MotionEvent) (status : String)
        → Run w done v
        → Run w
            (done ++ appended_state event status ∷ [])
            (record v { table = (append_event_atomic r tid event status v.table).0 })
    -- a command that leaves the state of this task
    elsewhere :
        {done : List (TaskState → TaskState)} {v : World} (table : State)
        → hget tid table ≡ hget tid v.table
        → Run w done v
        → Run w done (record v { table = table })

  -- What was read is the task's state still, or that has a later version.
  record IsFresh (now : TaskState) (read : ℕ → Option TaskState) : Type 0 where
    old : (c : ℕ) (state : TaskState) → read c ≡ some state → state.version ≤ now.version
    same :
        (c : ℕ) (state : TaskState)
        → read c ≡ some state
        → state.version ≡ now.version
        → state ≡ now

  record IsReplayed (first : TaskState) (done : List (TaskState → TaskState)) (v : World)
      : Type 0 where
    holds : hget tid v.table ≡ some (replay done first)
    fresh : IsFresh (replay done first) v.read

  IsFresh-later :
      (now later : TaskState) (read : ℕ → Option TaskState)
      → IsFresh now read
      → now.version < later.version
      → IsFresh later read
  IsFresh-later now later read h lt = record {
    old = λ c state q. omega (arith, h.old c state q);
    same = λ c state q e. absurd (omega (arith, h.old c state q));
  }

  either_of :
      (b : Bool) (o p : Option TaskState) (state : TaskState)
      → (if b then o else p) ≡ some state
      → (o ≡ some state) ⊎ (p ≡ some state)
  either_of true o p state h = inl h
  either_of false o p state h = inr h

  -- A client forgets what it has read, or reads the state that is there.
  IsFresh-set :
      (now : TaskState) (read : ℕ → Option TaskState) (c : ℕ) (o : Option TaskState)
      → ((state : TaskState) → o ≡ some state → state ≡ now)
      → IsFresh now read
      → IsFresh now (set_read read c o)
  IsFresh-set now read c o here h = record {
    old = λ d state q. elim (either_of (d == c) o (read d) state q) [
      | inl e ↦ omega (arith, ap (λ (t : TaskState). t.version) (here state e))
      | inr e ↦ h.old d state e
    ];
    same = λ d state q e. elim (either_of (d == c) o (read d) state q) [
      | inl f ↦ here state f
      | inr f ↦ h.same d state f e
    ];
  }

  cas_round-now :
      (f : TaskState → TaskState) (state now : TaskState) (s : State)
      → hget tid s ≡ some now
      → cas_round r tid f state s ≡ (
          if now.version == state.version
          then (hset tid (bump_version (f state)) s, true)
          else (s, false))
  unfolding cas_round cas_write_state cas_lua
  cas_round-now f state now s h = rw (h, cas_round, cas_write_state, cas_lua) (ground arith)

  append-now :
      (event : MotionEvent) (status : String) (now : TaskState) (s : State)
      → hget tid s ≡ some now
      → (append_event_atomic r tid event status s).0 ≡ hset tid (appended_state event status now) s
  unfolding append_event_atomic
  append-now event status now s h = rw (h, append_event_atomic) refl

  appended-version :
      (event : MotionEvent) (status : String) (state : TaskState)
      → (appended_state event status state).version ≡ state.version + 1
  appended-version event status state = ground arith

  -- A change that is written as the next one.
  written_lem :
      (first : TaskState) (done : List (TaskState → TaskState)) (change : TaskState → TaskState)
      (table : State) (read : ℕ → Option TaskState)
      → (replay done first).version < (change (replay done first)).version
      → IsFresh (replay done first) read
      → IsReplayed first
          (done ++ change ∷ [])
          (record { table = hset tid (change (replay done first)) table; read = read })
  written_lem first done change table read lt h = record {
    holds = hget-hset tid tid _ table ∙ rw (eq_refl tid, replay-snoc done change first) refl;
    fresh =
        rw (replay-snoc done change first)
          (IsFresh-later (replay done first) (change (replay done first)) read h lt);
  }

  module _ (keeps : (c : ℕ) (state : TaskState) → (mutator c state).version ≡ state.version)
      (first : TaskState) (w : World) (known : hget tid w.table ≡ some first)
      (idle : (c : ℕ) → w.read c ≡ none) where
    commit-written :
        (done : List (TaskState → TaskState)) (v : World) (c : ℕ) (state : TaskState)
        → state ≡ replay done first
        → IsReplayed first done v
        → IsReplayed first (done ++ (λ (s : TaskState). bump_version (mutator c s)) ∷ []) (record {
          table = hset tid (bump_version (mutator c state)) v.table;
          read = set_read v.read c none;
        })
    commit-written done v c state e h = rw e (
        written_lem first done (λ s. bump_version (mutator c s)) v.table (set_read v.read c none)
          (omega (arith, keeps c (replay done first)))
          (IsFresh-set (replay done first) v.read c none (λ s q. cc) h.fresh))

    commit-IsReplayed :
        (done : List (TaskState → TaskState)) (v : World) (c : ℕ) (state : TaskState)
        → v.read c ≡ some state
        → IsReplayed first done v
        → IsReplayed first
            (if (cas_round r tid (mutator c) state v.table).1
              then done ++ (λ (s : TaskState). bump_version (mutator c s)) ∷ []
              else done)
            (record {
              table = (cas_round r tid (mutator c) state v.table).0;
              read = set_read v.read c none;
            })
    commit-IsReplayed done v c state q h =
        let now = replay done first in
        let round = cas_round-now (mutator c) state now v.table h.holds in
        elim (Bool-cases (now.version == state.version)) [
          | inl e ↦
              rw (round, e)
                (commit-written done v c state (h.fresh.same c state q (ground arith)) h)
          | inr e ↦
              rw (round, e)
                (record {
                  holds = h.holds;
                  fresh = IsFresh-set now v.read c none (λ s p. cc) h.fresh;
                })
        ]

    Run-IsReplayed :
        {done : List (TaskState → TaskState)} {v : World} → Run w done v → IsReplayed first done v
    unfolding replay
    Run-IsReplayed start = record {
      holds = known;
      fresh = record {
        old = λ c state q. absurd (let n = idle c in cc);
        same = λ c state q e. absurd (let n = idle c in cc);
      };
    }
    Run-IsReplayed (loads {done} {v} c run) =
        let h = Run-IsReplayed run in
        record {
          holds = h.holds;
          fresh =
              IsFresh-set (replay done first) v.read c (hget tid v.table)
                (λ s q. let p = h.holds in cc) h.fresh;
        }
    Run-IsReplayed (commits {done} {v} c state q run) =
        commit-IsReplayed done v c state q (Run-IsReplayed run)
    Run-IsReplayed (appends {done} {v} event status run) =
        let h = Run-IsReplayed run in
        rw (append-now event status (replay done first) v.table h.holds) (
          written_lem first done (appended_state event status) v.table v.read
            (omega (arith, appended-version event status (replay done first))) h.fresh)
    Run-IsReplayed (elsewhere {done} {v} table same run) =
        let h = Run-IsReplayed run in record { holds = same ∙ h.holds; fresh = h.fresh }

    -- Whatever rounds of `_cas_update` and event appends the clients run on a task in whatever order,
    -- the stored state is the first state with the written changes made to it in their order, each
    -- exactly once: no written change is lost. Conditions: the task is there at the start, no client has
    -- read it yet, no mutator changes the version, and nothing else writes the state.
    pub Run-replay :
        {done : List (TaskState → TaskState)} {v : World}
        → Run w done v
        → hget tid v.table ≡ some (replay done first)
    Run-replay run = (Run-IsReplayed run).holds
