-- ===== src/MotionParams/Tests.antt =====
-- A small machine, and what it accepts.
use qwen.Prelude.{◌≡◌, refl, none, some, [], ◌∷◌}
use qwen.Prelude.Dict.{get, put, member}
use qwen.MotionParams.{
  whole, scale, lt, le, number, text, Item, point, scalar, list, Params, DeviceProfile,
  point_outside_workspace, profile_limit_error, cap_number, cap_path, apply_profile_constraints,
  clamp_params_to_profile,
}
use qwen.MotionParams.Path.{Builtins, valid, parse_feed_value, validate_run_path_params}
use qwen.MotionParams.Move.{
  plain_number, above_bound, validate_move_params, validate_move_abs, targets,
}
use qwen.MotionParams.Capability.{validate_capability_params, copy_scalar_params}
use qwen.MotionParams.Within.{PathWithin}
use qwen.MotionParams.Target.{TargetWithin, move_abs_within}
use qwen.MotionParams.Accepted.{FeedLimited, dispatched_within}

abbrev py : Builtins
py = record { parse_float = λ s. none; str = λ v. "voice" }

abbrev small : DeviceProfile
small = record {
  workspace_mm =
      ("x", number (whole 60)) ∷ ("y", number (whole 60)) ∷ ("z", number (whole 10)) ∷ [];
  max_feed = whole 600;
  max_path_points = 50;
  capabilities = "run_path" ∷ [];
  supported_fw_prefixes = "" ∷ [];
}

abbrev corner : Item
corner = point (("x", number (whole 60)) ∷ ("y", number (whole 3)) ∷ [])

abbrev line : Params
line = ("path", list (corner ∷ corner ∷ [])) ∷ ("feed", scalar (number (whole 900))) ∷ []

abbrev accepted : Params
accepted =
    ("path", list (corner ∷ corner ∷ []))
    ∷ ("feed", scalar (number (whole 600)))
    ∷ ("source_capability", scalar (text "voice"))
    ∷ []

line-accepted :
    validate_capability_params py "run_path"
      (clamp_params_to_profile line (some small))
      (some small)
    ≡ valid accepted
unfolding point_outside_workspace validate_capability_params validate_run_path_params
    profile_limit_error clamp_params_to_profile cap_number cap_path copy_scalar_params get put
    member lt le scale
line-accepted = refl

dispatched_within_example :
    let t = apply_profile_constraints accepted small in
    PathWithin small (get "path" t) × FeedLimited small (get "feed" t)
dispatched_within_example = dispatched_within py "run_path" line small accepted line-accepted

abbrev target : Params
target = ("x", scalar (number (whole 60))) ∷ ("y", scalar (number (whole 0))) ∷ []

abbrev moved : Params
moved =
    ("source_capability", scalar (text "move_abs"))
    ∷ ("x", scalar (number (whole 60)))
    ∷ ("y", scalar (number (whole 0)))
    ∷ ("feed", scalar (number (whole 1000)))
    ∷ []

target-accepted : validate_capability_params py "move_abs" target (some small) ≡ valid moved
unfolding plain_number above_bound parse_feed_value validate_capability_params validate_move_params
    validate_move_abs targets get put member lt le scale
target-accepted = refl

move_abs_within_example : TargetWithin small moved
move_abs_within_example = move_abs_within py target small moved target-accepted
