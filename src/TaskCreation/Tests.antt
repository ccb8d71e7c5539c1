-- ===== src/TaskCreation/Tests.antt =====
-- A voice task on a small machine: created, refused, and what comes of each.
use qwen.Prelude.{◌≡◌, refl, [], ◌∷◌, ◌++◌, str_eq, if◌then◌else◌}
use qwen.Prelude.Dict.{get, member}
use qwen.Ledger.{empty, events_for_task}
use qwen.Workflow.State.{ready_to_dispatch}
use qwen.Workflow.Orchestrator.Coherence.{IsCoherent}
use qwen.Workflow.Orchestrator.Chain.{Stands}
use qwen.Policy.{reject}
use qwen.TaskCreation.{
  constrain, returned, policy, error_event, error_task, assemble_motion_task, build_error_task,
}
use qwen.TaskCreation.Ready.{IsStored, ready_task, created_ready}
use qwen.TaskCreation.Refused.{build_error_task_exact}
use qwen.TaskCreation.Safe.{IsSafe, project_to_motion_task-IsSafe}
use qwen.TaskCreation.Example.{
  accepted, pl, draw, stamp, stamps, store, cloud, route, cloud-IsCoherent, stamps-AreFresh,
  line-made,
}

created_ready_example :
    let (c', out) = assemble_motion_task pl "plotter" draw accepted 0 stamps cloud in
    (out ≡ returned (ready_task 0 "task-000001" accepted))
    × Stands "task-000001" ready_to_dispatch (4 ∷ []) c'.workflow
    × IsStored "task-000001" 0 "created" store c'.store
unfolding get events_for_task
created_ready_example =
    created_ready pl "plotter" draw accepted 0 stamps cloud refl cloud-IsCoherent refl refl
      stamps-AreFresh

build_error_task_exact_example :
    let (c', out) =
      build_error_task pl "plotter" draw (policy reject) "blocked" 0 (stamp "e1" 1) cloud in
    (out ≡ returned (error_task 0 "task-000001" (policy reject)))
    × IsStored "task-000001" 0 "blocked" store c'.store
    × (events_for_task "task-000001" c'.workflow.ledger ≡ (
        if str_eq "task-000001" "task-000001"
        then events_for_task "task-000001" empty
          ++ error_event "task-000001" "plotter" "blocked" (stamp "e1" 1) ∷ []
        else events_for_task "task-000001" empty))
    × (c'.workflow.locks ≡ [])
    × IsCoherent c'.workflow
build_error_task_exact_example =
    build_error_task_exact pl "plotter" draw (policy reject) "blocked" 0 (stamp "e1" 1) cloud
      "task-000001" cloud-IsCoherent
      (record { id_given = refl; task_given = refl; id_new = unfold member in refl })

project_to_motion_task-IsSafe_example :
    IsSafe pl draw route (constrain route (ready_task 0 "task-000001" accepted))
project_to_motion_task-IsSafe_example =
    project_to_motion_task-IsSafe pl "plotter" draw route 0 stamps cloud _
      (constrain route (ready_task 0 "task-000001" accepted)) line-made refl
