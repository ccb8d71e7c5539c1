-- ===== src/TaskRouting/Tests.antt =====
-- A line drawn on a small plotter that has one task queued, off line and on line.
use qwen.Prelude.{ℕ, ◌≡◌, refl, true, false, some, [], ◌∷◌}
use qwen.Prelude.Dict.{get}
use qwen.TaskStore.{queue_of}
use qwen.Events
use qwen.Sessions.{DeviceSession}
use qwen.Dispatch.{Channel, store_of}
use qwen.TaskCreation.{Cloud, MotionTask, constrain, assemble_motion_task}
use qwen.TaskCreation.Ready.{ready_task}
use qwen.TaskCreation.Example.{pl, draw, route, accepted, stamps, store, cloud, line-made}
use qwen.TaskRouting.{DeviceTaskRequest, Front, routed, create_and_route_task}
use qwen.TaskRouting.Delivered.{offline_waits, online_sent}

abbrev front : Front
front = record { strip = λ s. s; resolve_voice_task = λ s. draw; resolve_route = λ d voice. route }

abbrev request : DeviceTaskRequest
request = record { device_id = "plotter"; text = ""; source = ""; voice_task = some draw }

abbrev session : DeviceSession
session = record {
  device_id = "plotter";
  websocket = 1;
  last_uptime_ms = 0;
  last_seen_at = 10;
  inflight_tasks = [];
}

abbrev offline : Channel
offline = record {
  registry = record { heap = λ r. session; sessions = []; store = store };
  workflow = cloud.workflow;
  frames = [];
}

abbrev online : Channel
online = record offline { registry = record offline.registry { sessions = ("plotter", 1) ∷ [] } }

abbrev sent_at : ℕ → Events.Stamp
sent_at t = record { event_id = "e9"; now = 9 ∷ [] }

abbrev made : MotionTask
made = constrain route (ready_task 0 "task-000001" accepted)

abbrev after : Cloud
after = (assemble_motion_task pl "plotter" draw accepted 0 stamps cloud).0

offline_waits_example :
    (c' : Channel) × (create_and_route_task
        (λ t. true)
        sent_at
        pl
        front
        request
        true
        0
        stamps
        9
        offline
      ≡ some (
        c',
        routed
            (record { status = "queued_no_delivery"; sent = false; queue_depth = 2; task = made }),
      ))
    × (queue_of "plotter" (store_of c') ≡ 5 ∷ 0 ∷ [])
    × (c'.frames ≡ [])
unfolding get
offline_waits_example =
    offline_waits (λ t. true) sent_at pl front request 0 stamps 9 offline after made
      (line-made, refl) refl

online_sent_example :
    (c' : Channel) × (create_and_route_task
        (λ t. true)
        sent_at
        pl
        front
        request
        true
        0
        stamps
        9
        online
      ≡ some (c', routed (record { status = "sent"; sent = true; queue_depth = 2; task = made })))
    × (queue_of "plotter" (store_of c') ≡ [])
    × (c'.frames ≡ (1, 5) ∷ (1, 0) ∷ [])
unfolding get
online_sent_example =
    online_sent (λ t. true) sent_at pl front request 0 stamps 9 online after made 1
      (line-made, refl) refl refl (λ t. refl)
