-- ===== src/TaskCreation/Ready.antt =====
-- What a created task is: safe, allowed, and ready to dispatch.
use qwen.Prelude.{
  ℕ, ◌+◌, ◌*◌, ◌/◌, ◌≤◌, min, String, ◌≡◌, refl, sym, subst, false, none, some, List, [], ◌∷◌, inl,
  inr, arith, str_eq, beq_refl, Option-cases, length,
}
use native.Mathlib.Nat.{min-le_right}
use qwen.Prelude.Dict.{get, get-put_self}
use qwen.MotionParams.{Params, value_list}
use qwen.TaskStore.{Store, Task, new_state, next_task_id, create_task_state}
use qwen.Ledger.{events_for_task}
use qwen.Workflow.State.{TaskState, created, planned, simulated, ready_to_dispatch, is_allowed}
use qwen.Workflow.Lock.{is_held}
use qwen.Workflow.Orchestrator.{Orchestrator, Result, ok, err, register, advance}
use qwen.Workflow.Orchestrator.Coherence.{IsCoherent}
use qwen.Workflow.Orchestrator.Body.{reached}
use qwen.Workflow.Orchestrator.Chain.{Stamp, AreFresh, Stands, Led, advance-Led, register-Led}
use qwen.TaskCreation.{
  VoiceTask, Planner, Cloud, Stamps, MotionTask, returned, risk_of_points, risk_score,
  simulated_target, ◌>>◌, simulation_steps, finish_simulation, assemble_motion_task, place,
  new_task, task_capability,
}

-- The risk of a path whose device is not given is at most 0.4.
risk_of_points-le : (n : ℕ) → risk_of_points n ≤ 4000
unfolding risk_of_points
risk_of_points-le n =
    let few = min-le_right n 200 in
    omega (arith, min-le_right 10000 (1000 + 3000 * min n 200 / 200))

risk_score-le : (params : Params) → risk_score params ≤ 4000
unfolding risk_score
risk_score-le params = elim (Option-cases (value_list (get "path" params))) [
  | inl e ↦ rw (e, risk_score) (omega arith)
  | inr (items, e) ↦ rw (e, risk_score) (ground (arith, risk_of_points-le (length items)))
]

-- No simulation asks for an approval.
pub simulated_target-ready : (params : Params) → simulated_target params ≡ ready_to_dispatch
unfolding simulated_target
simulated_target-ready params = ground (arith, risk_score-le params)

>>-ok :
    (m k : Orchestrator → Orchestrator × Result TaskState) (w : Orchestrator) (s : TaskState)
    → (m w).1 ≡ ok s
    → (m >> k) w ≡ k (m w).0
>>-ok m k w s h = rw (h, ◌>>◌) refl

abbrev pub stamps_of : Stamps → List Stamp
stamps_of st = st.of_register ∷ st.of_planned ∷ st.of_simulated ∷ st.of_target ∷ []

Led-bind :
    (m k : Orchestrator → Orchestrator × Result TaskState) (tid : String) (s s' : TaskState)
    (st st' : Stamp) (rest rest' : List Stamp) (w : Orchestrator)
    → Led tid s st rest (m w)
    → (Led tid s st rest (m w) → Led tid s' st' rest' (k (m w).0))
    → Led tid s' st' rest' ((m >> k) w)
Led-bind m k tid s s' st st' rest rest' w h next =
    subst (Led tid s' st' rest') (sym (>>-ok m k w s h.0)) (next h)

-- The four transitions of a new task succeed.
simulation_steps-Led :
    (tid device_id : String) (st : Stamps) (w : Orchestrator)
    → str_eq tid "" ≡ false
    → IsCoherent w
    → is_held tid w.locks ≡ false
    → events_for_task tid w.ledger ≡ []
    → AreFresh [] (stamps_of st) w.ledger
    → Led tid ready_to_dispatch st.of_target []
        (simulation_steps tid device_id ready_to_dispatch st w)
unfolding simulation_steps
simulation_steps-Led tid device_id st w named c free none_yet fresh =
    let m0 = register tid device_id device_id st.of_register.event_id st.of_register.now in
    let m1 = advance tid planned st.of_planned.event_id st.of_planned.now in
    let m2 = advance tid simulated st.of_simulated.event_id st.of_simulated.now in
    let m3 = advance tid ready_to_dispatch st.of_target.event_id st.of_target.now in
    let s0 = st.of_register in
    let s1 = st.of_planned in
    let s2 = st.of_simulated in
    let s3 = st.of_target in
    let step1 =
      Led-bind m0 m1 tid created planned s0 s1 (s1 ∷ s2 ∷ s3 ∷ []) (s2 ∷ s3 ∷ []) w
        (register-Led tid named s0 (s1 ∷ s2 ∷ s3 ∷ []) [] w device_id device_id c free none_yet
          fresh)
        (λ h.
          advance-Led tid named s1 (s2 ∷ s3 ∷ []) s0.now (m0 w).0 created planned h.1
            (unfold is_allowed in refl) (unfold reached in refl) h.2) in
    let step2 =
      Led-bind (m0 >> m1) m2 tid planned simulated s1 s2 (s2 ∷ s3 ∷ []) (s3 ∷ []) w step1 (λ h.
        advance-Led tid named s2 (s3 ∷ []) s1.now ((m0 >> m1) w).0 planned simulated h.1
          (unfold is_allowed in refl) (unfold reached in refl) h.2) in
    Led-bind (m0 >> m1 >> m2) m3 tid simulated ready_to_dispatch s2 s3 (s3 ∷ []) [] w step2 (λ h.
      advance-Led tid named s3 [] s2.now ((m0 >> m1 >> m2) w).0 simulated ready_to_dispatch h.1
        (unfold is_allowed in refl) (unfold reached in refl) h.2)

-- The store knows the new task and has moved no other: its state, and the tables of the queues and of the
-- processing, from those before.
abbrev pub IsStored : String → ℕ → String → Store → Store → Type 0
IsStored tid r status before after =
    (get tid after.tasks ≡ some (new_state (some r) status))
    × (after.pending ≡ before.pending)
    × (after.processing ≡ before.processing)

abbrev pub ready_task : ℕ → String → Params → MotionTask
ready_task r tid sanitized = record {
  task = r;
  task_id = tid;
  params = sanitized;
  error = none;
  workflow_state = some ready_to_dispatch;
  approval_required = false;
}

pub stored :
    (r : ℕ) (task : Task) (status : String) (s : Store)
    → get task.task_id (create_task_state r status (place r task s)).tasks
      ≡ some (new_state (some r) status)
unfolding create_task_state
stored r task status s = rw beq_refl (get-put_self task.task_id (new_state (some r) status) s.tasks)

finish-ready :
    (r : ℕ) (sanitized : Params) (st : Stamp) (rest : List Stamp) (task : Task) (s : Store)
    (p : Orchestrator × Result TaskState)
    → Led task.task_id ready_to_dispatch st rest p
    → let (c', out) =
        finish_simulation r task.task_id sanitized ready_to_dispatch (place r task s) p in
      (out ≡ returned (ready_task r task.task_id sanitized))
      × Stands task.task_id ready_to_dispatch st.now c'.workflow
      × IsStored task.task_id r "created" s c'.store
unfolding create_task_state
finish-ready r sanitized st rest task s (w, err x) led = cc
finish-ready r sanitized st rest task s (w, ok state) led =
    (refl, led.1, (stored r task "created" s, refl, refl))

-- A task whose parameters were accepted is made ready to dispatch, at once and always: the simulation
-- is given no profile, so its risk stays below the one that asks for an approval. Where the task's id is
-- not blank and has no event in the ledger, its lock is free, the workflow coherent and the stamps new and in the
-- order of their times, the four transitions succeed: the task that is returned has its parameters, no error and
-- the state `ready_to_dispatch`, which is what the ledger says of it; its lock is free and the cache
-- coherent; the store has its state `created`, and every queue and processing table as before.
pub created_ready :
    (pl : Planner) (device_id : String) (voice : VoiceTask) (sanitized : Params) (r : ℕ)
    (st : Stamps) (c : Cloud)
    → str_eq (pl.format c.store.counter) "" ≡ false
    → IsCoherent c.workflow
    → is_held (pl.format c.store.counter) c.workflow.locks ≡ false
    → events_for_task (pl.format c.store.counter) c.workflow.ledger ≡ []
    → AreFresh [] (stamps_of st) c.workflow.ledger
    → let tid = pl.format c.store.counter in
      let (c', out) = assemble_motion_task pl device_id voice sanitized r st c in
      (out ≡ returned (ready_task r tid sanitized))
      × Stands tid ready_to_dispatch st.of_target.now c'.workflow
      × IsStored tid r "created" c.store c'.store
unfolding assemble_motion_task next_task_id
created_ready pl device_id voice sanitized r st c named coherent free none_yet fresh =
    let tid = pl.format c.store.counter in
    rw (simulated_target-ready sanitized) (
      finish-ready r sanitized st.of_target []
        (new_task tid device_id (task_capability voice.capability) voice.source)
        (record c.store { counter = c.store.counter + 1 })
        (simulation_steps tid device_id ready_to_dispatch st c.workflow)
        (simulation_steps-Led tid device_id st c.workflow named coherent free none_yet fresh))
