-- ===== src/TaskCreation/Safe.antt =====
-- Every created task without an error was validated, allowed and constrained.
use qwen.Prelude.{
  ℕ, String, ◌≡◌, refl, subst, ap, ◌⊎◌, Bool, true, false, Option, none, some, List, [], ◌∷◌, inl,
  inr, Bool-cases, ◌||◌,
}
use qwen.Prelude.Dict.{get, put, member}
use qwen.MotionParams.{
  MotionErrorCode, Item, list, Params, DeviceProfile, value_list, clamp_params_to_profile,
  apply_profile_constraints,
}
use qwen.MotionParams.Path.{Checked, valid, invalid}
use qwen.MotionParams.Capability.{validate_capability_params, path_generating_capabilities}
use qwen.MotionParams.Within.{PathWithin}
use qwen.MotionParams.Accepted.{FeedLimited, dispatched_within}
use qwen.Policy.{PolicyDecision, allow, decide}
use qwen.Ledger.{LedgerError}
use qwen.TaskStore.{Store}
use qwen.Workflow.State.{TaskState, ready_to_dispatch}
use qwen.Workflow.Orchestrator.{Orchestrator, Result, ok, err}
use qwen.Workflow.Orchestrator.Chain.{Stamp}
use qwen.TaskCreation.{
  VoiceTask, Planner, Cloud, Route, Stamps, MotionTask, Outcome, returned, raised, Prepared, go,
  refuse, Built, built, build_error, TaskError, after_built, after_normalized, fit_path,
  normalize_generated_path, validate_params, apply_policy, prepare, is_allow, simulated_target,
  finish_simulation, assemble_motion_task, error_outcome, build_error_task, of_prepared,
  create_task_from_voice_task, constrain, constrain_returned, project, route_policy_error,
  fw_incompatible, project_to_motion_task,
}
use qwen.TaskCreation.Ready.{simulated_target-ready}

-- Parameters that were accepted for the profile and allowed by the policy.
abbrev pub IsAllowed : Planner → VoiceTask → DeviceProfile → Params → Type 0
IsAllowed pl voice profile sanitized =
    ((params : Params) × (validate_capability_params pl.py voice.capability
          (clamp_params_to_profile params (some profile)) (some profile)
        ≡ valid sanitized))
    × (decide pl.int_of voice.capability voice.fw_rev sanitized voice.profile ≡ allow)

abbrev Sound : Planner → VoiceTask → DeviceProfile → Prepared → Type 0
Sound pl voice profile (refuse e status) = Unit
Sound pl voice profile (go sanitized) = IsAllowed pl voice profile sanitized

is_allow-allow : (d : PolicyDecision) → is_allow d ≡ true → d ≡ allow
is_allow-allow allow h = refl
is_allow-allow _ h = cc

Checked-cases :
    (m : Checked Params)
    → ((s : Params) × (m ≡ valid s)) ⊎ ((e : MotionErrorCode) × (m ≡ invalid e))
Checked-cases (valid s) = inl (s, refl)
Checked-cases (invalid e) = inr (e, refl)

module _ (pl : Planner) (voice : VoiceTask) (profile : DeviceProfile) where
  checked-Sound :
      (params : Params)
      → Sound pl voice profile
          (validate_params pl voice.capability profile params (apply_policy pl voice))
  unfolding validate_params apply_policy
  checked-Sound params =
      let m =
        validate_capability_params pl.py voice.capability
          (clamp_params_to_profile params (some profile)) (some profile) in
      elim (Checked-cases m) [
        | inr (e, q) ↦ rw q tt
        | inl (s, q) ↦
            rw q
              (elim (Bool-cases
                (is_allow (decide pl.int_of voice.capability voice.fw_rev s voice.profile))) [
                  | inl a ↦ rw a ((params, q), is_allow-allow _ a)
                  | inr a ↦ rw a tt
                ])
      ]

  fitted-Sound :
      (next : Params → Prepared)
      → ((p : Params) → Sound pl voice profile (next p))
      → (params : Params) (path : Option (List Item))
      → Sound pl voice profile (after_normalized params path next)
  fitted-Sound next h params none = tt
  fitted-Sound next h params (some path) = h (put "path" (list path) params)

  fit_path-Sound :
      (next : Params → Prepared)
      → ((p : Params) → Sound pl voice profile (next p))
      → (params : Params) (path : Option (List Item))
      → Sound pl voice profile (fit_path pl profile params path next)
  fit_path-Sound next h params none = h params
  fit_path-Sound next h params (some []) = h params
  fit_path-Sound next h params (some (item ∷ items)) =
      fitted-Sound next h params (pl.normalize_path (item ∷ items) profile)

  normalized-Sound :
      (next : Params → Prepared)
      → ((p : Params) → Sound pl voice profile (next p))
      → (params : Params)
      → Sound pl voice profile (normalize_generated_path pl voice.capability profile params next)
  unfolding normalize_generated_path
  normalized-Sound next h params =
      elim (Bool-cases (member voice.capability path_generating_capabilities)) [
        | inl e ↦ rw e (fit_path-Sound next h params (value_list (get "path" params)))
        | inr e ↦ rw e (h params)
      ]

  built-Sound :
      (next : Params → Prepared)
      → ((p : Params) → Sound pl voice profile (next p))
      → (b : Built) → Sound pl voice profile (after_built b next)
  built-Sound next h build_error = tt
  built-Sound next h (built none) = tt
  built-Sound next h (built (some params)) = h params

  prepare-Sound : (device_id : String) → Sound pl voice profile (prepare pl device_id voice profile)
  unfolding prepare
  prepare-Sound device_id =
      built-Sound _
        (normalized-Sound
          (λ normalized.
            validate_params pl voice.capability profile normalized (apply_policy pl voice))
          checked-Sound)
        (pl.build_run_params voice.capability voice.params device_id)

-- A returned task without an error has the property.
abbrev IfMade : (MotionTask → Type 0) → Option TaskError → MotionTask → Type 0
IfMade P none task = P task
IfMade P (some e) task = Unit

abbrev Made : (MotionTask → Type 0) → Cloud × Outcome → Type 0
Made P (c, raised x) = Unit
Made P (c, returned task) = IfMade P task.error task

-- A task that is ready, with parameters that were accepted and allowed.
abbrev IsPlanned : Planner → VoiceTask → DeviceProfile → MotionTask → Type 0
IsPlanned pl voice profile task =
    (task.workflow_state ≡ some ready_to_dispatch) × IsAllowed pl voice profile task.params

reported-Made :
    (P : MotionTask → Type 0) (r : ℕ) (tid : String) (error : TaskError) (c : Cloud)
    (x : Option LedgerError)
    → Made P (error_outcome r tid error c x)
reported-Made P r tid error c none = tt
reported-Made P r tid error c (some x) = tt

refused-Made :
    (P : MotionTask → Type 0) (pl : Planner) (device_id : String) (voice : VoiceTask)
    (error : TaskError) (status : String) (r : ℕ) (st : Stamp) (c : Cloud)
    → Made P (build_error_task pl device_id voice error status r st c)
unfolding build_error_task
refused-Made P pl device_id voice error status r st c = reported-Made P r _ error _ _

finished-Made :
    (pl : Planner) (voice : VoiceTask) (profile : DeviceProfile) (r : ℕ) (tid : String)
    (sanitized : Params) (target : TaskState) (s : Store) (p : Orchestrator × Result TaskState)
    → target ≡ ready_to_dispatch
    → IsAllowed pl voice profile sanitized
    → Made (IsPlanned pl voice profile) (finish_simulation r tid sanitized target s p)
finished-Made pl voice profile r tid sanitized target s (w, err x) ready sound = tt
finished-Made pl voice profile r tid sanitized target s (w, ok x) ready sound =
    (ap some ready, sound)

prepared-Made :
    (pl : Planner) (device_id : String) (voice : VoiceTask) (profile : DeviceProfile)
    (prepared : Prepared) (r : ℕ) (st : Stamps) (c : Cloud)
    → Sound pl voice profile prepared
    → Made (IsPlanned pl voice profile) (of_prepared pl device_id voice prepared r st c)
unfolding assemble_motion_task
prepared-Made pl device_id voice profile (refuse e status) r st c sound =
    refused-Made (IsPlanned pl voice profile) pl device_id voice e status r st.of_register c
prepared-Made pl device_id voice profile (go sanitized) r st c sound =
    finished-Made pl voice profile r _ sanitized (simulated_target sanitized) _ _
      (simulated_target-ready sanitized) sound

-- A task that the policy allowed, safe for its device.
pub record IsSafe (pl : Planner) (voice : VoiceTask) (route : Route) (task : MotionTask)
    : Type 0 where
  pub ready : task.workflow_state ≡ some ready_to_dispatch
  pub path : PathWithin route.profile (get "path" task.params)
  pub feed : FeedLimited route.profile (get "feed" task.params)
  pub allowed :
      (sanitized : Params) × (task.params ≡ apply_profile_constraints sanitized route.profile)
      × (decide pl.int_of voice.capability voice.fw_rev sanitized voice.profile ≡ allow)

planned-IsSafe :
    (pl : Planner) (voice : VoiceTask) (route : Route) (task : MotionTask)
    → IsPlanned pl voice route.profile task
    → IsSafe pl voice route (constrain route task)
planned-IsSafe pl voice route task planned =
    let (ready, ((params, accepted), allowed)) = planned in
    let safe = dispatched_within pl.py voice.capability params route.profile task.params accepted in
    record { ready = ready; path = safe.0; feed = safe.1; allowed = (task.params, refl, allowed) }

IfMade-constrain :
    (P Q : MotionTask → Type 0) (route : Route) (e : Option TaskError) (task : MotionTask)
    → (P task → Q (constrain route task))
    → IfMade P e task
    → IfMade Q e (constrain route task)
IfMade-constrain P Q route none task f h = f h
IfMade-constrain P Q route (some e) task f h = tt

constrained-Made :
    (pl : Planner) (voice : VoiceTask) (route : Route) (p : Cloud × Outcome)
    → Made (IsPlanned pl voice route.profile) p
    → Made (IsSafe pl voice route) (constrain_returned route p)
constrained-Made pl voice route (c, raised x) h = tt
constrained-Made pl voice route (c, returned task) h =
    IfMade-constrain (IsPlanned pl voice route.profile) (IsSafe pl voice route) route task.error
      task (planned-IsSafe pl voice route task) h

project-Made :
    (error : Option MotionErrorCode) (blocked : Bool) (pl : Planner) (device_id : String)
    (voice : VoiceTask) (route : Route) (r : ℕ) (st : Stamps) (c : Cloud)
    → Made (IsSafe pl voice route) (project error blocked pl device_id voice route r st c)
unfolding create_task_from_voice_task
project-Made (some code) blocked pl device_id voice route r st c =
    refused-Made (IsSafe pl voice route) pl device_id voice (route_policy_error code) "failed" r
      st.of_register c
project-Made none true pl device_id voice route r st c =
    refused-Made (IsSafe pl voice route) pl device_id voice fw_incompatible "blocked" r
      st.of_register c
project-Made none false pl device_id voice route r st c = constrained-Made pl voice route _ (
    prepared-Made pl device_id voice route.profile (prepare pl device_id voice route.profile) r st c
      (prepare-Sound pl voice route.profile device_id))

-- A motion task that is returned without an error is safe, whatever the drawing of its parameters gave and
-- whatever the state of store and workflow: it is ready to dispatch; the policy allowed it, with the
-- parameters that it had before the constraints of its device's profile; its path, if it has one, lies in the
-- profile's workspace with no more points than the profile allows, and its feed is not above the profile's.
pub project_to_motion_task-IsSafe :
    (pl : Planner) (device_id : String) (voice : VoiceTask) (route : Route) (r : ℕ) (st : Stamps)
    (c c' : Cloud) (task : MotionTask)
    → project_to_motion_task pl device_id voice route r st c ≡ (c', returned task)
    → task.error ≡ none
    → IsSafe pl voice route task
unfolding project_to_motion_task
project_to_motion_task-IsSafe pl device_id voice route r st c c' task made no_error =
    let safe = subst (Made (IsSafe pl voice route)) made (
      project-Made route.policy_error (route.block_dispatch || route.dispatch_blocked) pl device_id
        voice route r st c) in
    subst (λ e. IfMade (IsSafe pl voice route) e task) no_error safe
