-- ===== src/TaskCreation/Example.antt =====
-- A small plotter and a line that it is asked to draw, made into a task.
use qwen.Prelude.{ℕ, ◌≡◌, refl, ap, String, true, false, none, some, [], ◌∷◌}
use qwen.Prelude.Dict.{get, put, member}
use qwen.Prelude.Sort.{text_leb}
use qwen.MotionParams.{
  lt, le, scale, clamp_params_to_profile, cap_path, cap_number, point_outside_workspace,
  profile_limit_error, whole, number, text, Item, point, scalar, list, Params, DeviceProfile,
}
use qwen.MotionParams.Path.{validate_run_path_params}
use qwen.MotionParams.Capability.{validate_capability_params, copy_scalar_params}
use qwen.TaskStore.{Store}
use qwen.Ledger.{empty, events_for_task}
use qwen.Workflow.Orchestrator.Coherence.{IsCoherent}
use qwen.Workflow.Orchestrator.Chain.{Stamp, AreFresh}
use qwen.Policy.{decide}
use qwen.TaskCreation.{
  VoiceTask, Outcome, go, prepare, constrain, constrain_returned, Route, Planner, Cloud, Stamps,
  built, returned, assemble_motion_task, project_to_motion_task,
}
use qwen.TaskCreation.Ready.{stamps_of, ready_task, created_ready}

abbrev pub small : DeviceProfile
small = record {
  workspace_mm =
      ("x", number (whole 60)) ∷ ("y", number (whole 60)) ∷ ("z", number (whole 10)) ∷ [];
  max_feed = whole 600;
  max_path_points = 50;
  capabilities = "run_path" ∷ [];
  supported_fw_prefixes = "" ∷ [];
}

abbrev pub corner : Item
corner = point (("x", number (whole 60)) ∷ ("y", number (whole 3)) ∷ [])

abbrev pub line : Params
line = ("path", list (corner ∷ corner ∷ [])) ∷ ("feed", scalar (number (whole 900))) ∷ []

abbrev pub accepted : Params
accepted =
    ("path", list (corner ∷ corner ∷ []))
    ∷ ("feed", scalar (number (whole 600)))
    ∷ ("source_capability", scalar (text "voice"))
    ∷ []

abbrev pub pl : Planner
pl = record {
  build_run_params = λ capability params device_id. built (some params);
  normalize_path = λ path profile. some path;
  format = λ n. "task-000001";
  py = record { parse_float = λ s. none; str = λ v. "voice" };
  int_of = λ seg. none;
}

abbrev pub draw : VoiceTask
draw = record { capability = "run_path"; params = line; source = none; fw_rev = ""; profile = none }

abbrev pub stamp : String → ℕ → Stamp
stamp id at = record { event_id = id; now = at ∷ [] }

abbrev pub stamps : Stamps
stamps = record {
  of_register = stamp "e1" 1;
  of_planned = stamp "e2" 2;
  of_simulated = stamp "e3" 3;
  of_target = stamp "e4" 4;
}

abbrev pub store : Store
store = record {
  counter = 1;
  heap = λ r. record {
    task_id = "";
    device_id = "";
    capability = "";
    source = "";
    enqueued_at = 0;
    dispatch_gen = none;
  };
  tasks = [];
  pending = ("plotter", 5 ∷ []) ∷ [];
  processing = [];
}

abbrev pub cloud : Cloud
cloud = record { store = store; workflow = record { ledger = empty; cache = []; locks = [] } }

abbrev pub route : Route
route = record {
  profile = small;
  complete = true;
  block_dispatch = false;
  dispatch_blocked = false;
  policy_error = none;
  model_required = false;
  approval_required = false;
}

pub cloud-IsCoherent : IsCoherent cloud.workflow
unfolding get
cloud-IsCoherent = record { seen = λ tid n s h. cc; said = λ tid n s h. cc }

pub stamps-AreFresh : AreFresh [] (stamps_of stamps) empty
unfolding member text_leb
stamps-AreFresh = (
  refl,
  refl,
  refl,
  (refl, (refl, (refl, tt))),
  (
    refl,
    refl,
    refl,
    (refl, (refl, tt)),
    (refl, refl, refl, (refl, tt), (refl, refl, refl, tt, tt)),
  ),
)

pub line-prepared : prepare pl "plotter" draw small ≡ go accepted
unfolding prepare member validate_capability_params get put validate_run_path_params
    profile_limit_error lt le scale clamp_params_to_profile cap_path cap_number copy_scalar_params
    point_outside_workspace decide
line-prepared = refl

pub line-assembled :
    (assemble_motion_task pl "plotter" draw accepted 0 stamps cloud).1
    ≡ returned (ready_task 0 "task-000001" accepted)
unfolding get events_for_task
line-assembled =
    (created_ready pl "plotter" draw accepted 0 stamps cloud refl cloud-IsCoherent refl refl
      stamps-AreFresh).0

pub line-made : project_to_motion_task pl "plotter" draw route 0 stamps cloud ≡ (
  (assemble_motion_task pl "plotter" draw accepted 0 stamps cloud).0,
  returned (constrain route (ready_task 0 "task-000001" accepted)),
)
unfolding project_to_motion_task
line-made =
    let made = assemble_motion_task pl "plotter" draw accepted 0 stamps cloud in
    rw line-prepared (ap (λ (out : Outcome). constrain_returned route (made.0, out)) line-assembled)
