-- ===== src/TaskRouting/Held.antt =====
-- A task reaches a queue only if it was made safe, and the creation of a task touches no queue.
use qwen.Prelude.{ℕ, String, Bool, true, false, ◌≡◌, refl, Option, none, some, ◌⊎◌, ◌||◌}
use qwen.Events
use qwen.TaskStore.{Store, next_task_id, create_task_state}
use qwen.Ledger.{LedgerError}
use qwen.MotionParams.{Params, MotionErrorCode}
use qwen.Workflow.State.{TaskState}
use qwen.Workflow.Orchestrator.{Orchestrator, Result, ok, err}
use qwen.Workflow.Orchestrator.Chain
use qwen.Dispatch.{Channel, store_of}
use qwen.TaskCreation.{
  VoiceTask, Route, Planner, Cloud, Stamps, MotionTask, Outcome, returned, raised, TaskError,
  Prepared, go, refuse, prepare, route_policy_error, fw_incompatible, error_outcome,
  build_error_task, finish_simulation, assemble_motion_task, simulated_target, of_prepared,
  constrain_returned, create_task_from_voice_task, project, project_to_motion_task,
}
use qwen.Prelude.Dict.{get}
use qwen.Dispatch.{try_deliver_and_classify, try_deliver_pending}
use qwen.Dispatch.{drain_pending_tasks}
use qwen.TaskRouting.{routed, raises, Routed, set_cloud, enqueue_and_try_deliver}

abbrev Keeps : Cloud → Cloud × Outcome → Type 0
Keeps c p = p.0.store.pending ≡ c.store.pending

reported-Keeps :
    (r : ℕ) (tid : String) (error : TaskError) (c : Cloud) (x : Option LedgerError)
    → Keeps c (error_outcome r tid error c x)
reported-Keeps r tid error c none = refl
reported-Keeps r tid error c (some x) = refl

refused-Keeps :
    (pl : Planner) (device_id : String) (voice : VoiceTask) (error : TaskError) (status : String)
    (r : ℕ) (st : Chain.Stamp) (c : Cloud)
    → Keeps c (build_error_task pl device_id voice error status r st c)
unfolding build_error_task next_task_id create_task_state
refused-Keeps pl device_id voice error status r st c = reported-Keeps r _ error _ _

finished-Keeps :
    (r : ℕ) (tid : String) (sanitized : Params) (target : TaskState) (c : Cloud) (s : Store)
    (p : Orchestrator × Result TaskState)
    → s.pending ≡ c.store.pending
    → Keeps c (finish_simulation r tid sanitized target s p)
unfolding create_task_state
finished-Keeps r tid sanitized target c s (w, err x) h = h
finished-Keeps r tid sanitized target c s (w, ok x) h = h

prepared-Keeps :
    (pl : Planner) (device_id : String) (voice : VoiceTask) (prepared : Prepared) (r : ℕ)
    (st : Stamps) (c : Cloud)
    → Keeps c (of_prepared pl device_id voice prepared r st c)
unfolding assemble_motion_task next_task_id
prepared-Keeps pl device_id voice (refuse e status) r st c =
    refused-Keeps pl device_id voice e status r st.of_register c
prepared-Keeps pl device_id voice (go sanitized) r st c =
    finished-Keeps r _ sanitized (simulated_target sanitized) c _ _ refl

constrained-Keeps :
    (route : Route) (c : Cloud) (p : Cloud × Outcome)
    → Keeps c p
    → Keeps c (constrain_returned route p)
constrained-Keeps route c (c', raised x) h = h
constrained-Keeps route c (c', returned task) h = h

project-Keeps :
    (error : Option MotionErrorCode) (blocked : Bool) (pl : Planner) (device_id : String)
    (voice : VoiceTask) (route : Route) (r : ℕ) (st : Stamps) (c : Cloud)
    → Keeps c (project error blocked pl device_id voice route r st c)
unfolding create_task_from_voice_task
project-Keeps (some code) blocked pl device_id voice route r st c =
    refused-Keeps pl device_id voice (route_policy_error code) "failed" r st.of_register c
project-Keeps none true pl device_id voice route r st c =
    refused-Keeps pl device_id voice fw_incompatible "blocked" r st.of_register c
project-Keeps none false pl device_id voice route r st c =
    constrained-Keeps route c _
      (prepared-Keeps pl device_id voice (prepare pl device_id voice route.profile) r st c)

pub project_to_motion_task-Keeps :
    (pl : Planner) (device_id : String) (voice : VoiceTask) (route : Route) (r : ℕ) (st : Stamps)
    (c : Cloud)
    → (project_to_motion_task pl device_id voice route r st c).0.store.pending ≡ c.store.pending
unfolding project_to_motion_task
project_to_motion_task-Keeps pl device_id voice route r st c =
    project-Keeps route.policy_error (route.block_dispatch || route.dispatch_blocked) pl device_id
      voice route r st c

-- Nothing was queued, nothing sent, and no session has changed.
pub record IsUntouched (c c' : Channel) : Type 0 where
  pub pending : (store_of c').pending ≡ (store_of c).pending
  pub frames : c'.frames ≡ c.frames
  pub heap : c'.registry.heap ≡ c.registry.heap
  pub sessions : c'.registry.sessions ≡ c.registry.sessions

abbrev pub is_sent : Routed → Bool
is_sent (routed result) = result.sent
is_sent (raises x) = false

module _ (sends : ℕ → Bool) (stamp : ℕ → Events.Stamp) where
  -- Either nothing was queued or sent, or the caller wanted the task queued, and it was, as a task with the
  -- property `P`.
  abbrev pub IsPassed :
      (MotionTask → Type 0) → Bool → String → ℕ → Channel → Cloud → Channel × Routed → Type 0
  IsPassed P enqueue d now c cloud o =
      (IsUntouched c o.0 × (is_sent o.1 ≡ false))
      ⊎ ((task : MotionTask) × P task
          × (enqueue ≡ true)
          × (enqueue_and_try_deliver sends stamp d task now (set_cloud cloud c) ≡ some o))

  pub offline_classified :
      (d : String) (now : ℕ) (c : Channel)
      → get d c.registry.sessions ≡ none
      → try_deliver_and_classify sends stamp d now c ≡ some (c, false, "queued_no_delivery")
  unfolding try_deliver_and_classify try_deliver_pending
  offline_classified d now c e = rw (e, try_deliver_and_classify, e) refl

  pub sent_classified :
      (d : String) (now session : ℕ) (c c' : Channel)
      → get d c.registry.sessions ≡ some session
      → drain_pending_tasks sends stamp session now c ≡ some (c', true)
      → try_deliver_and_classify sends stamp d now c ≡ some (c', true, "sent")
  unfolding try_deliver_and_classify try_deliver_pending
  sent_classified d now session c c' e h = rw (e, h, try_deliver_and_classify) refl
