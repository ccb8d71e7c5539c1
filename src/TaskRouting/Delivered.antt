-- ===== src/TaskRouting/Delivered.antt =====
-- What becomes of a task that was made and is to be queued: with its device off line, and on line.
use qwen.Prelude.{
  ℕ, Bool, true, false, ◌≡◌, refl, ap, sym, ◌∙◌, none, some, [], ◌∷◌, ◌++◌, map, ◌+◌, length, subst,
}
use qwen.Prelude.Dict.{get, get_or}
use qwen.Events
use qwen.TaskStore.{queue_of}
use qwen.TaskStore.Delivery.{enqueue_pending_task}
use qwen.TaskStore.Delivery.Counts.{enqueue_exact, enqueue_depth}
use qwen.Workflow.State.{value}
use qwen.Dispatch.{Channel, store_of, set_store, device_of}
use qwen.Dispatch.Drain.{drain_sends_all}
use qwen.TaskCreation.{
  Planner, Cloud, Stamps, MotionTask, returned, Outcome, project_to_motion_task,
}
use qwen.TaskCreation.Safe.{project_to_motion_task-IsSafe}
use qwen.TaskRouting.{
  DeviceTaskRequest, Front, routed, voice_of, cloud_of, set_cloud, create_and_route_task,
  route_task, route_by, awaits_approval, enqueue_and_try_deliver,
}
use qwen.TaskRouting.Held.{offline_classified, sent_classified, project_to_motion_task-Keeps}

module _ (sends : ℕ → Bool) (stamp : ℕ → Events.Stamp) (pl : Planner) (front : Front)
    (request : DeviceTaskRequest) (r : ℕ) (st : Stamps) (now : ℕ) (c : Channel) (cloud : Cloud)
    (task : MotionTask) where
  -- The creation gave this task, without an error.
  abbrev pub IsMade : Type 0
  IsMade =
      let d = front.strip request.device_id in
      let voice = voice_of front request in
      (project_to_motion_task pl d voice (front.resolve_route d voice) r st (cloud_of c)
        ≡ (cloud, returned task))
      × (task.error ≡ none)

  made-routed :
      IsMade
      → create_and_route_task sends stamp pl front request true r st now c
        ≡ enqueue_and_try_deliver sends stamp
            (front.strip request.device_id)
            task
            now
            (set_cloud cloud c)
  unfolding create_and_route_task route_task value
  made-routed (made, no_error) =
      let d = front.strip request.device_id in
      let voice = voice_of front request in
      let safe =
        project_to_motion_task-IsSafe pl d voice (front.resolve_route d voice) r st (cloud_of c)
          cloud task made no_error in
      rw made (
        ap
          (λ error.
            route_by sends stamp error (awaits_approval task.workflow_state) true d task now
              (set_cloud cloud c))
          no_error
        ∙ ap
            (λ state.
              route_by sends stamp none (awaits_approval state) true d task now (set_cloud cloud c))
            safe.ready)

  made-queue :
      IsMade
      → let d = front.strip request.device_id in
        queue_of d (set_cloud cloud c).registry.store ≡ queue_of d (store_of c)
  made-queue (made, no_error) =
      let d = front.strip request.device_id in
      let voice = voice_of front request in
      ap (λ m. get_or d m [])
        (ap (λ (p : Cloud × Outcome). p.0.store.pending) (sym made)
          ∙ project_to_motion_task-Keeps pl d voice (front.resolve_route d voice) r st (cloud_of c))

  made-enqueued :
      IsMade
      → let d = front.strip request.device_id in
        let (s, depth) = enqueue_pending_task d task.task now (store_of (set_cloud cloud c)) in
        (queue_of d s ≡ queue_of d (store_of c) ++ task.task ∷ [])
        × (depth ≡ length (queue_of d (store_of c)) + 1)
  made-enqueued made =
      let d = front.strip request.device_id in
      let s = store_of (set_cloud cloud c) in
      (
        (enqueue_exact d task.task now s).0 ∙ ap (λ q. q ++ task.task ∷ []) (made-queue made),
        enqueue_depth d task.task now s ∙ ap (λ q. length q + 1) (made-queue made),
      )

  -- A task made without an error for a device that is off line waits as the last of its device's queue: the answer
  -- is `queued_no_delivery`, with the length of the queue. Whether the task needs an approval makes no
  -- difference.
  pub offline_waits :
      IsMade
      → get (front.strip request.device_id) c.registry.sessions ≡ none
      → let d = front.strip request.device_id in
        (c' : Channel) × (create_and_route_task sends stamp pl front request true r st now c
          ≡ some (
            c',
            routed (record {
              status = "queued_no_delivery";
              sent = false;
              queue_depth = length (queue_of d (store_of c)) + 1;
              task = task;
            }),
          ))
        × (queue_of d (store_of c') ≡ queue_of d (store_of c) ++ task.task ∷ [])
        × (c'.frames ≡ c.frames)
  unfolding enqueue_and_try_deliver
  offline_waits made offline =
      let d = front.strip request.device_id in
      let base = set_cloud cloud c in
      let (s, depth) = enqueue_pending_task d task.task now (store_of base) in
      let (queue, deep) = made-enqueued made in
      (
        set_store s base,
        made-routed made
            ∙ rw
                (
                  offline_classified sends stamp d now (set_store s base) offline,
                  enqueue_and_try_deliver,
                  deep,
                )
                refl,
        queue,
        refl,
      )

  -- A task made without an error for a device that is on line, where every send succeeds, is sent, behind the
  -- tasks that its device's queue had: the answer is `sent`, the queue is empty, and the frames
  -- are the queue's tasks in their order and then the new one.
  pub online_sent :
      (session : ℕ)
      → IsMade
      → get (front.strip request.device_id) c.registry.sessions ≡ some session
      → device_of session c ≡ front.strip request.device_id
      → ((t : ℕ) → sends t ≡ true)
      → let d = front.strip request.device_id in
        (c' : Channel) × (create_and_route_task sends stamp pl front request true r st now c
          ≡ some (
            c',
            routed (record {
              status = "sent";
              sent = true;
              queue_depth = length (queue_of d (store_of c)) + 1;
              task = task;
            }),
          ))
        × (queue_of d (store_of c') ≡ [])
        × (c'.frames
            ≡ c.frames ++ map (λ t. (session, t)) (queue_of d (store_of c) ++ task.task ∷ []))
  unfolding enqueue_and_try_deliver
  online_sent session made online own all =
      let d = front.strip request.device_id in
      let base = set_cloud cloud c in
      let (s, depth) = enqueue_pending_task d task.task now (store_of base) in
      let (queue, deep) = made-enqueued made in
      let (c', ends, empty, frames) =
        drain_sends_all sends stamp session now (set_store s base) all in
      (
        c',
        made-routed made
            ∙ rw
                (
                  sent_classified sends stamp d now session (set_store s base) c' online ends,
                  enqueue_and_try_deliver,
                  deep,
                )
                refl,
        subst (λ e. queue_of e (store_of c') ≡ []) own empty,
        frames
            ∙ ap (λ q. c.frames ++ map (λ t. (session, t)) q) (ap (λ e. queue_of e s) own ∙ queue),
      )
