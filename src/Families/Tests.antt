-- ===== src/Families/Tests.antt =====
-- An approval of the camera that is revoked and given again.
use qwen.Prelude.{◌≡◌, false, ◌&&◌, ◌||◌, List, [], ◌∷◌, str_eq}
use qwen.Prelude.Dict.{get}
use qwen.Families.{is_listed, family_allowlists, validate_family_capability}
use qwen.Families.Granted.{Action, approves, revokes, run, granted, is_allowed, validate_exact}

abbrev actions : List Action
actions =
    approves "plotter" "camera" "admin" 0 "t1"
    ∷ revokes "plotter" "camera" "t2"
    ∷ approves "plotter" "camera" "admin" 0 "t3"
    ∷ []

validate_exact_example :
    is_allowed (validate_family_capability "plotter" "camera" "capture_frame" (run actions [])) ≡ (
      is_listed "capture_frame" (get "camera" family_allowlists)
      && (str_eq "camera" "motion" || granted "plotter" "camera" actions false))
validate_exact_example = validate_exact "plotter" "camera" "capture_frame" actions
