-- ===== src/TaskRouting.antt =====
-- `create_and_route_task` of device_gateway/tasks.py: a request is made into a task, and the task, unless it
-- has an error or awaits an approval, is put into its device's queue and pushed to the device. It stands on the creation
-- (TaskCreation) and the push (Dispatch), which share the store and the workflow of the gateway. The metrics are left out, and
-- so are the exceptions of the drawing and of numbers that no float can hold.
pub mod Held
pub mod Delivered
mod Tests
use qwen.Prelude.{
  ℕ, String, Bool, true, false, ◌&&◌, not, Option, none, some, if◌then◌else◌, str_eq,
}
use qwen.TaskStore.Delivery.{enqueue_pending_task, pending_count}
use qwen.Workflow.State.{TaskState, waiting_approval, value}
use qwen.Workflow.Orchestrator.{WorkflowError}
use qwen.Dispatch.{Channel, store_of, set_store, try_deliver_and_classify}
use qwen.Events
use qwen.TaskCreation.{
  VoiceTask, Route, Planner, Cloud, Stamps, MotionTask, Outcome, TaskError, returned, raised,
  project_to_motion_task,
}

pub record DeviceTaskRequest : Type 0 where
  pub device_id : String
  pub text : String
  pub source : String
  pub voice_task : Option VoiceTask

-- What the routing calls of the rest: `str.strip`, the parsing of a transcript, and the profile and policy of a
-- voice task for a device.
pub record Front : Type 0 where
  pub strip : String → String
  pub resolve_voice_task : String → VoiceTask
  pub resolve_route : String → VoiceTask → Route

-- `DeviceTaskRouteResult`
pub record RouteResult : Type 0 where
  pub status : String
  pub sent : Bool
  pub queue_depth : ℕ
  pub task : MotionTask

-- What a call ends with: a result, or the exception of the workflow that it does not catch.
pub data Routed : Type 0 where
  routed : RouteResult → Routed
  raises : WorkflowError → Routed

-- The voice task that is projected: the one given, or the transcript's with the request's source.
abbrev pub with_source : String → VoiceTask → VoiceTask
with_source source voice = if str_eq source "" then voice else record voice { source = some source }

abbrev pub voice_of : Front → DeviceTaskRequest → VoiceTask
voice_of front request = elim request.voice_task [
  | some voice ↦ voice
  | none ↦ with_source request.source (front.resolve_voice_task (front.strip request.text))
]

abbrev pub cloud_of : Channel → Cloud
cloud_of c = record { store = store_of c; workflow = c.workflow }

abbrev pub set_cloud : Cloud → Channel → Channel
set_cloud cloud c = record (set_store cloud.store c) { workflow = cloud.workflow }

abbrev pub awaits_approval : Option TaskState → Bool
awaits_approval none = false
awaits_approval (some state) = str_eq (value state) (value waiting_approval)

-- A result without an enqueueing.
abbrev pub held : String → String → MotionTask → Channel → Channel × Routed
held status d task c = (
  c,
  routed (record {
    status = status;
    sent = false;
    queue_depth = pending_count (some d) (store_of c);
    task = task;
  }),
)

abbrev pub classified : ℕ → MotionTask → Channel × Bool × String → Channel × Routed
classified depth task (c, sent, status) =
    (c, routed (record { status = status; sent = sent; queue_depth = depth; task = task }))

module _ (sends : ℕ → Bool) (stamp : ℕ → Events.Stamp) where
  -- `_enqueue_and_try_deliver`, at the time `now`.
  unfoldable pub enqueue_and_try_deliver :
      String → MotionTask → ℕ → Channel → Option (Channel × Routed)
  enqueue_and_try_deliver d task now c =
      let (s, depth) = enqueue_pending_task d task.task now (store_of c) in
      elim (try_deliver_and_classify sends stamp d now (set_store s c)) [
        | none ↦ none
        | some o ↦ some (classified depth task o)
      ]

  -- The branches of the routing, by the task's error and whether it awaits an approval.
  abbrev pub route_by :
      Option TaskError → Bool → Bool → String → MotionTask → ℕ → Channel → Option (Channel × Routed)
  route_by (some e) waiting enqueue d task now c = some (held "failed" d task c)
  route_by none true enqueue d task now c = some (held "waiting_approval" d task c)
  route_by none false false d task now c = some (held "created" d task c)
  route_by none false true d task now c = enqueue_and_try_deliver d task now c

  unfoldable pub route_task : Bool → String → MotionTask → ℕ → Channel → Option (Channel × Routed)
  route_task enqueue d task =
      route_by task.error (awaits_approval task.workflow_state) enqueue d task

  abbrev pub route_outcome :
      Bool → String → ℕ → Channel → Cloud × Outcome → Option (Channel × Routed)
  route_outcome enqueue d now c (cloud, raised x) = some (set_cloud cloud c, raises x)
  route_outcome enqueue d now c (cloud, returned task) =
      route_task enqueue d task now (set_cloud cloud c)

  -- `r` is the reference of the new task and `st` the stamps of its events.
  unfoldable pub create_and_route_task :
      Planner
      → Front
      → DeviceTaskRequest
      → Bool
      → ℕ
      → Stamps
      → ℕ
      → Channel
      → Option (Channel × Routed)
  unfolding route_task
  create_and_route_task pl front request enqueue r st now c =
      let d = front.strip request.device_id in
      let voice = voice_of front request in
      route_outcome enqueue d now c
        (project_to_motion_task pl d voice (front.resolve_route d voice) r st (cloud_of c))
