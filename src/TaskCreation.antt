-- ===== src/TaskCreation.antt =====
-- device_gateway/task_creation.py, task_creation_builders.py and task_creation_errors.py, with the risk of
-- device_intelligence/simulator.py: how a voice task becomes a motion task, over the store and the
-- workflow. What the creation calls of the rest is a record of functions: the drawing of the parameters,
-- the fitting of a generated path into the workspace, and the library's conversions. The artifacts, the route evidence
-- and the texts of the errors are left out.
pub mod Example
pub mod Ready
pub mod Refused
pub mod Safe
mod Tests
use qwen.Prelude.{
  ℕ, ◌+◌, ◌*◌, ◌/◌, min, String, Bool, true, false, ◌&&◌, ◌||◌, not, Option, none, some, List, [],
  ◌∷◌, ltb, leb, if◌then◌else◌, str_eq, length,
}
use qwen.Prelude.Dict.{get, put, member}
use qwen.MotionParams.{
  Item, Value, scalar, list, Params, DeviceProfile, MotionErrorCode, value_list,
  clamp_params_to_profile, apply_profile_constraints,
}
use qwen.MotionParams.Path.{Builtins, Checked, valid, invalid}
use qwen.MotionParams.Capability.{
  validate_capability_params, control_capabilities, move_capabilities, path_generating_capabilities,
}
use qwen.Policy.{IntReader, PolicyDecision, allow, decide}
use qwen.TaskStore.{Store, Task, next_task_id, create_task_state, update}
use qwen.Ledger.{LedgerEvent, LedgerError, task_created, record_event}
use qwen.Workflow.State.{TaskState, planned, simulated, waiting_approval, ready_to_dispatch}
use qwen.Workflow.Orchestrator.{
  Orchestrator, Result, ok, err, WorkflowError, ledger_error, register, advance, no_payload,
}
use qwen.Workflow.Orchestrator.Chain.{Stamp}

pub record VoiceTask : Type 0 where
  pub capability : String
  pub params : Params
  pub source : Option String
  pub fw_rev : String
  pub profile : Option DeviceProfile

-- `ResolvedProfile`, and the part of the route policy that is read.
pub record Route : Type 0 where
  pub profile : DeviceProfile
  pub complete : Bool
  pub block_dispatch : Bool  -- of the routing hints
  pub dispatch_blocked : Bool  -- of the route policy
  pub policy_error : Option MotionErrorCode  -- of `validate_route_policy`
  pub model_required : Bool
  pub approval_required : Bool

-- What `build_run_params_async` returns.
pub data Built : Type 0 where
  built : Option Params → Built
  build_error : Built

pub record Planner : Type 0 where
  pub build_run_params : String → Params → String → Built
  pub normalize_path : List Item → DeviceProfile → Option (List Item)
  pub format : ℕ → String
  pub py : Builtins
  pub int_of : IntReader

pub record Cloud : Type 0 where
  pub store : Store
  pub workflow : Orchestrator

pub data TaskError : Type 0 where
  draw_failed task_build_failed not_normalized fw_incompatible : TaskError
  route_policy_error validation : MotionErrorCode → TaskError
  policy : PolicyDecision → TaskError

-- The dict that is returned, by what is read of it; `task` is its reference in the store's heap.
pub record MotionTask : Type 0 where
  pub task : ℕ
  pub task_id : String
  pub params : Params
  pub error : Option TaskError
  pub workflow_state : Option TaskState
  pub approval_required : Bool

pub data Outcome : Type 0 where
  returned : MotionTask → Outcome
  raised : WorkflowError → Outcome

-- A step of the preparation: the parameters, or the error and the status of the task that reports it.
pub data Prepared : Type 0 where
  go : Params → Prepared
  refuse : TaskError → String → Prepared

abbrev pub after_built : Built → (Params → Prepared) → Prepared
after_built build_error next = refuse draw_failed "failed"
after_built (built none) next = refuse task_build_failed "failed"
after_built (built (some params)) next = next params

abbrev pub after_normalized : Params → Option (List Item) → (Params → Prepared) → Prepared
after_normalized params none next = refuse not_normalized "failed"
after_normalized params (some path) next = next (put "path" (list path) params)

abbrev pub fit_path :
    Planner → DeviceProfile → Params → Option (List Item) → (Params → Prepared) → Prepared
fit_path pl profile params none next = next params
fit_path pl profile params (some []) next = next params
fit_path pl profile params (some (item ∷ items)) next =
    after_normalized params (pl.normalize_path (item ∷ items) profile) next

-- `_normalize_generated_path`; a capability that generates no path, or an empty path, is left alone.
unfoldable pub normalize_generated_path :
    Planner → String → DeviceProfile → Params → (Params → Prepared) → Prepared
normalize_generated_path pl capability profile params next =
    if member capability path_generating_capabilities
    then fit_path pl profile params (value_list (get "path" params)) next
    else next params

abbrev pub after_checked : Checked Params → (Params → Prepared) → Prepared
after_checked (valid sanitized) next = next sanitized
after_checked (invalid code) next = refuse (validation code) "failed"

-- `_validate_params_or_error`
unfoldable pub validate_params :
    Planner → String → DeviceProfile → Params → (Params → Prepared) → Prepared
validate_params pl capability profile params next =
    after_checked
      (validate_capability_params pl.py capability (clamp_params_to_profile params (some profile))
        (some profile))
      next

abbrev pub is_allow : PolicyDecision → Bool
is_allow d = elim d [ allow ↦ true | _ ↦ false ]

-- `_apply_route_policy_or_blocked`; the profile is the voice task's.
unfoldable pub apply_policy : Planner → VoiceTask → Params → Prepared
apply_policy pl voice sanitized =
    let d = decide pl.int_of voice.capability voice.fw_rev sanitized voice.profile in
    if is_allow d then go sanitized else refuse (policy d) "blocked"

-- The part of `_create_task_from_voice_task` before the task is made. Its guards on `sanitized` and
-- `policy_dict` see no `None`.
unfoldable pub prepare : Planner → String → VoiceTask → DeviceProfile → Prepared
unfolding normalize_generated_path validate_params apply_policy
prepare pl device_id voice profile =
    after_built (pl.build_run_params voice.capability voice.params device_id) λ run_params.
      normalize_generated_path pl voice.capability profile run_params λ normalized.
        validate_params pl voice.capability profile normalized
          λ sanitized. apply_policy pl voice sanitized

-- `_compute_risk` without a profile, in ten-thousandths, to which it is rounded.
unfoldable pub risk_of_points : ℕ → ℕ
risk_of_points n = min 10000 (1000 + 3000 * min n 200 / 200)

-- The risk score of `simulate_motion`.
unfoldable pub risk_score : Params → ℕ
unfolding risk_of_points
risk_score params = elim (value_list (get "path" params)) [
  | none ↦ 0
  | some items ↦ if ltb (length items) 2 then 0 else risk_of_points (length items)
]

-- The state to which the simulation leads: approval from a risk of 0.7 on.
unfoldable pub simulated_target : Params → TaskState
simulated_target sanitized =
    if leb 7000 (risk_score sanitized) then waiting_approval else ready_to_dispatch

-- A step of the workflow, and what follows unless it raises.
infixl 5 ◌>>◌
abbrev pub ◌>>◌ :
    (Orchestrator → Orchestrator × Result TaskState)
    → (Orchestrator → Orchestrator × Result TaskState)
    → Orchestrator
    → Orchestrator × Result TaskState
(m >> k) w = let (w', r) = m w in elim r [ ok s ↦ k w' | err x ↦ (w', err x) ]

-- The stamps of the four events of a creation.
pub record Stamps : Type 0 where
  pub of_register : Stamp
  pub of_planned : Stamp
  pub of_simulated : Stamp
  pub of_target : Stamp

unfoldable pub simulation_steps :
    String → String → TaskState → Stamps → Orchestrator → Orchestrator × Result TaskState
simulation_steps tid device_id target st =
    register tid device_id device_id st.of_register.event_id st.of_register.now
    >> advance tid planned st.of_planned.event_id st.of_planned.now
    >> advance tid simulated st.of_simulated.event_id st.of_simulated.now
    >> advance tid target st.of_target.event_id st.of_target.now

abbrev or_voice : Option String → String
or_voice none = "voice"
or_voice (some source) = source

abbrev pub new_task : String → String → String → Option String → Task
new_task tid device_id capability source = record {
  task_id = tid;
  device_id = device_id;
  capability = capability;
  source = or_voice source;
  enqueued_at = 0;
  dispatch_gen = none;
}

abbrev pub place : ℕ → Task → Store → Store
place r task s = record s { heap = update s.heap r task }

abbrev pub task_capability : String → String
task_capability capability =
    if member capability control_capabilities || member capability move_capabilities
    then capability
    else "run_path"

abbrev pub finish_simulation :
    ℕ → String → Params → TaskState → Store → Orchestrator × Result TaskState → Cloud × Outcome
finish_simulation r tid sanitized target s (w, err x) =
    (record { store = s; workflow = w }, raised x)
finish_simulation r tid sanitized target s (w, ok reached) = (
  record { store = create_task_state r "created" s; workflow = w },
  returned (record {
    task = r;
    task_id = tid;
    params = sanitized;
    error = none;
    workflow_state = some target;
    approval_required = false;
  }),
)

-- `_assemble_motion_task` with `_run_task_simulation`; the task dict is a new object at `r`.
unfoldable pub assemble_motion_task :
    Planner → String → VoiceTask → Params → ℕ → Stamps → Cloud → Cloud × Outcome
unfolding simulation_steps simulated_target
assemble_motion_task pl device_id voice sanitized r st c =
    let (s, tid) = next_task_id pl.format c.store in
    let target = simulated_target sanitized in
    finish_simulation r tid sanitized target
      (place r (new_task tid device_id (task_capability voice.capability) voice.source) s)
      (simulation_steps tid device_id target st c.workflow)

abbrev pub error_event : String → String → String → Stamp → LedgerEvent
error_event tid device_id status st = record {
  event_id = st.event_id;
  event_type = task_created;
  task_id = tid;
  device_id = device_id;
  payload = record no_payload { status = some status };
  created_at = st.now;
}

abbrev pub error_task : ℕ → String → TaskError → MotionTask
error_task r tid error = record {
  task = r;
  task_id = tid;
  params = [];
  error = some error;
  workflow_state = none;
  approval_required = false;
}

abbrev pub error_outcome : ℕ → String → TaskError → Cloud → Option LedgerError → Cloud × Outcome
error_outcome r tid error c none = (c, returned (error_task r tid error))
error_outcome r tid error c (some x) = (c, raised (ledger_error x))

-- `_build_error_task`: the state is written before the ledger's event.
unfoldable pub build_error_task :
    Planner → String → VoiceTask → TaskError → String → ℕ → Stamp → Cloud → Cloud × Outcome
build_error_task pl device_id voice error status r st c =
    let (s, tid) = next_task_id pl.format c.store in
    let capability =
      if member voice.capability control_capabilities then voice.capability else "run_path" in
    let s' =
      create_task_state r status (place r (new_task tid device_id capability voice.source) s) in
    let (l, x) = record_event (error_event tid device_id status st) c.workflow.ledger in
    error_outcome r tid error (record { store = s'; workflow = record c.workflow { ledger = l } }) x

abbrev pub of_prepared :
    Planner → String → VoiceTask → Prepared → ℕ → Stamps → Cloud → Cloud × Outcome
of_prepared pl device_id voice (refuse error status) r st c =
    build_error_task pl device_id voice error status r st.of_register c
of_prepared pl device_id voice (go sanitized) r st c =
    assemble_motion_task pl device_id voice sanitized r st c

unfoldable pub create_task_from_voice_task :
    Planner → String → VoiceTask → DeviceProfile → ℕ → Stamps → Cloud → Cloud × Outcome
unfolding prepare assemble_motion_task build_error_task
create_task_from_voice_task pl device_id voice profile =
    of_prepared pl device_id voice (prepare pl device_id voice profile)

-- `apply_profile_constraints`: the caps, and the approval of a task that wants a model on a device
-- whose profile is not complete.
abbrev pub constrain : Route → MotionTask → MotionTask
constrain route task = record task {
  params = apply_profile_constraints task.params route.profile;
  approval_required = route.approval_required || (not route.complete && route.model_required);
}

abbrev pub constrain_returned : Route → Cloud × Outcome → Cloud × Outcome
constrain_returned route (c, raised x) = (c, raised x)
constrain_returned route (c, returned task) = (c, returned (constrain route task))

-- The branches of `project_to_motion_task_async`, by the error of the route policy and whether the
-- dispatch is blocked.
abbrev pub project :
    Option MotionErrorCode
    → Bool
    → Planner
    → String
    → VoiceTask
    → Route
    → ℕ
    → Stamps
    → Cloud
    → Cloud × Outcome
project (some code) blocked pl device_id voice route r st =
    build_error_task pl device_id voice (route_policy_error code) "failed" r st.of_register
project none true pl device_id voice route r st =
    build_error_task pl device_id voice fw_incompatible "blocked" r st.of_register
project none false pl device_id voice route r st = λ c.
    constrain_returned route (create_task_from_voice_task pl device_id voice route.profile r st c)

unfoldable pub project_to_motion_task :
    Planner → String → VoiceTask → Route → ℕ → Stamps → Cloud → Cloud × Outcome
unfolding create_task_from_voice_task
project_to_motion_task pl device_id voice route =
    project route.policy_error (route.block_dispatch || route.dispatch_blocked) pl device_id voice
      route
