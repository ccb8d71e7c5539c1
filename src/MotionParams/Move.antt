-- ===== src/MotionParams/Move.antt =====
-- device_gateway/move_validator.py: `move_abs` and `move_rel`, whose coordinates are scalars.
use qwen.Prelude.{
  ℕ, String, Bool, true, false, ◌&&◌, ◌||◌, not, Option, none, some, List, [], ◌∷◌, if◌then◌else◌,
  str_eq,
}
use qwen.Prelude.Dict.{get, get_or, put, has}
use qwen.MotionParams.{
  Number, whole, minus, lt, is_finite, null, boolean, number, text, nested, Value, scalar, list,
  Params, number_at, DeviceProfile, e_bad_params,
}
use qwen.MotionParams.Path.{
  Builtins, Checked, valid, invalid, ◌>>=◌, max_point_coord, min_point_coord, parse_feed_value,
  feed_or,
}

abbrev pub max_rel_step : Number
max_rel_step = whole 1

-- A number that is no bool, and finite.
unfoldable pub plain_number : Value → Checked Number
plain_number (scalar (number n)) = if is_finite n then valid n else invalid e_bad_params
plain_number (scalar null) = invalid e_bad_params
plain_number (scalar (boolean b)) = invalid e_bad_params
plain_number (scalar (text s)) = invalid e_bad_params
plain_number (scalar (nested b)) = invalid e_bad_params
plain_number (list items) = invalid e_bad_params

-- `_axis_scalar`
unfoldable pub axis_scalar : String → Params → Checked Number
axis_scalar key params = plain_number (get_or key params (scalar (number (whole 0))))

-- `val < 0 or val > bound`, or a bound that is none.
unfoldable pub above_bound : Number → Option Number → Bool
above_bound v none = true
above_bound v (some bound) = not (is_finite bound) || lt v (whole 0) || lt bound v

abbrev pub beyond : String → Number → Option DeviceProfile → Bool
beyond axis v none = false
beyond axis v (some profile) = above_bound v (number_at (get axis profile.workspace_mm))

unfoldable pub check_target : String → Option DeviceProfile → Number → Checked Number
check_target axis profile v =
    if lt v min_point_coord || lt max_point_coord v
    then invalid e_bad_params
    else if beyond axis v profile
    then invalid e_bad_params
    else valid v

-- The loop over the axes of a target.
unfoldable pub targets : List String → Params → Option DeviceProfile → Params → Checked Params
unfolding axis_scalar check_target
targets [] params profile sanitized = valid sanitized
targets (axis ∷ rest) params profile sanitized =
    axis_scalar axis params >>= check_target axis profile >>= λ v.
    targets rest params profile (put axis (scalar (number v)) sanitized)

abbrev pub with_feed : Builtins → ℕ → Params → Params → Checked Params
with_feed py default params sanitized = parse_feed_value py (feed_or default params) >>= λ feed.
    valid (put "feed" (scalar (number feed)) sanitized)

-- `z` is an axis of the target where it is given.
abbrev pub move_axes : Bool → List String
move_axes has_z = if has_z then "x" ∷ "y" ∷ "z" ∷ [] else "x" ∷ "y" ∷ []

abbrev pub move_base : String → Params
move_base name = ("source_capability", scalar (text name)) ∷ []

unfoldable pub validate_move_abs : Builtins → Params → Option DeviceProfile → Checked Params
validate_move_abs py params profile =
    targets (move_axes (has "z" params)) params profile (move_base "move_abs")
    >>= with_feed py 1000 params

unfoldable pub check_step : Number → Checked Number
check_step v = if lt v (minus 1) || lt max_rel_step v then invalid e_bad_params else valid v

-- `val != 0`
abbrev is_not_zero : Number → Bool
is_not_zero v = lt v (whole 0) || lt (whole 0) v

-- The loop over the steps; a missing `dz` is 0 and not looked at.
unfoldable pub steps : List String → Params → Bool → Params → Checked (Params × Bool)
unfolding axis_scalar check_step
steps [] params non_zero sanitized = valid (sanitized, non_zero)
steps (axis ∷ rest) params non_zero sanitized =
    if str_eq axis "dz" && not (has axis params)
    then steps rest params non_zero (put axis (scalar (number (whole 0))) sanitized)
    else axis_scalar axis params >>= check_step >>= λ v.
        steps rest params (non_zero || is_not_zero v) (put axis (scalar (number v)) sanitized)

abbrev pub if_moving : Params × Bool → Checked Params
if_moving (sanitized, non_zero) = if non_zero then valid sanitized else invalid e_bad_params

unfoldable pub validate_move_rel : Builtins → Params → Checked Params
unfolding steps
validate_move_rel py params =
    steps ("dx" ∷ "dy" ∷ "dz" ∷ []) params false (move_base "move_rel")
    >>= if_moving
    >>= with_feed py 800 params

unfoldable pub validate_move_params :
    Builtins → String → Params → Option DeviceProfile → Checked Params
validate_move_params py capability params profile =
    if str_eq capability "move_abs"
    then validate_move_abs py params profile
    else validate_move_rel py params
