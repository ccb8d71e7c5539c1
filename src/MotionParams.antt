-- ===== src/MotionParams.antt =====
-- The parameters of a motion task and the device profile that limits them: device_intelligence/safety.py,
-- the clamp of task_creation_builders.py and the caps of profile_constraints.py, all of device_gateway/.
-- A JSON value is read as deep as the code looks: a list holds dicts of scalars, the points of a path.
-- A finite number is its multiple of the smallest float, 2 ^ -1074; an int beyond the floats is left out.
pub mod Path
pub mod Move
pub mod Capability
pub mod Within
pub mod MoveWithin
pub mod Target
pub mod Accepted
mod Tests
use qwen.Prelude.{
  ℕ, ◌*◌, ◌^◌, String, Bool, true, false, ◌&&◌, ◌||◌, not, Option, none, some, List, [], ◌∷◌, ltb,
  if◌then◌else◌, length, take, any,
}
use qwen.Prelude.Dict.{Dict, get, put, get_or, member}
use qwen.Prelude.Int.{ℤ, pos, sub_ℕ, ltb_ℤ, leb_ℤ}

pub data Number : Type 0 where
  finite : ℤ → Number
  infinite : Bool → Number  -- `true` is the positive one
  nan : Number

-- The smallest floats in 1.
unfoldable pub scale : ℕ
scale = 2 ^ 1074

abbrev pub whole : ℕ → Number
whole n = finite (pos (n * scale))

abbrev pub minus : ℕ → Number
minus n = finite (sub_ℕ 0 (n * scale))

-- `<` and `<=` on floats; `nan` is in no order.
unfoldable pub lt : Number → Number → Bool
lt (finite a) (finite b) = ltb_ℤ a b
lt (finite a) (infinite positive) = positive
lt (infinite positive) (finite b) = not positive
lt (infinite s) (infinite t) = not s && t
lt (finite a) nan = false
lt (infinite s) nan = false
lt nan b = false

unfoldable pub le : Number → Number → Bool
le (finite a) (finite b) = leb_ℤ a b
le (finite a) (infinite positive) = positive
le (infinite positive) (finite b) = not positive
le (infinite s) (infinite t) = not s || t
le (finite a) nan = false
le (infinite s) nan = false
le nan b = false

abbrev pub is_finite : Number → Bool
is_finite (finite z) = true
is_finite (infinite positive) = false
is_finite nan = false

pub data Scalar : Type 0 where
  null : Scalar
  boolean : Bool → Scalar
  number : Number → Scalar
  text : String → Scalar
  nested : Bool → Scalar  -- a list or a dict, and whether it has items

-- An element of a path.
pub data Item : Type 0 where
  point : Dict Scalar → Item
  no_dict : Item

pub data Value : Type 0 where
  scalar : Scalar → Value
  list : List Item → Value

abbrev pub Params : Type 0
Params = Dict Value

-- `isinstance(v, (int, float))`, and the number: a bool is an int.
abbrev pub as_number : Scalar → Option Number
as_number null = none
as_number (boolean b) = some (whole (if b then 1 else 0))
as_number (number n) = some n
as_number (text s) = none
as_number (nested b) = none

abbrev pub number_at : Option Scalar → Option Number
number_at none = none
number_at (some s) = as_number s

abbrev pub value_number : Option Value → Option Number
value_number none = none
value_number (some (scalar s)) = as_number s
value_number (some (list items)) = none

abbrev pub value_list : Option Value → Option (List Item)
value_list none = none
value_list (some (scalar s)) = none
value_list (some (list items)) = some items

pub record DeviceProfile : Type 0 where
  pub workspace_mm : Dict Scalar
  pub max_feed : Number
  pub max_path_points : ℕ
  pub capabilities : List String
  pub supported_fw_prefixes : List String

pub data MotionErrorCode : Type 0 where
  e_unsupported_capability e_missing_path e_bad_params e_u1_unavailable : MotionErrorCode
  e_device_updating e_execution_failed e_unsupported_board : MotionErrorCode
  e_unsupported_profile e_timeout : MotionErrorCode

abbrev pub axes : List String
axes = "x" ∷ "y" ∷ "z" ∷ []

-- An axis of the workspace that no point can be compared with.
unfoldable pub is_bad_bound : Option Number → Bool
is_bad_bound none = true
is_bad_bound (some bound) = not (is_finite bound) || le bound (whole 0)

-- The comparison of one coordinate with the bound of its axis; the bound's key is there, as the axes
-- of the workspace were checked before.
unfoldable pub axis_outside : Option Number → Option Number → Bool
axis_outside none bound = true
axis_outside (some v) none = true
axis_outside (some v) (some bound) =
    not (is_finite v) || not (is_finite bound) || lt v (whole 0) || lt bound v

-- A coordinate that is missing is 0.
abbrev pub coordinate : String → Dict Scalar → Option Number
coordinate axis p = as_number (get_or axis p (number (whole 0)))

-- `_point_outside_workspace`
unfoldable pub point_outside_workspace : Dict Scalar → DeviceProfile → Bool
unfolding axis_outside
point_outside_workspace p profile =
    any (λ axis. axis_outside (coordinate axis p) (number_at (get axis profile.workspace_mm))) axes

unfoldable pub item_outside : DeviceProfile → Item → Bool
item_outside profile no_dict = true
item_outside profile (point p) = point_outside_workspace p profile

abbrev pub too_many : ℕ → Option (List Item) → Bool
too_many most none = false
too_many most (some items) = ltb most (length items)

abbrev pub above : Number → Option Number → Bool
above limit none = false
above limit (some v) = lt limit v

abbrev pub any_item : (Item → Bool) → Option (List Item) → Bool
any_item test none = false
any_item test (some items) = any test items

unfoldable pub profile_limit_error : Params → Option DeviceProfile → Option MotionErrorCode
unfolding is_bad_bound item_outside
profile_limit_error params none = none
profile_limit_error params (some profile) =
    let path = value_list (get "path" params) in
    if any (λ axis. is_bad_bound (number_at (get axis profile.workspace_mm))) axes
    then some e_bad_params
    else if too_many profile.max_path_points path
    then some e_bad_params
    else if above profile.max_feed (value_number (get "feed" params))
    then some e_bad_params
    else if any_item (item_outside profile) path
    then some e_bad_params
    else none

-- A number above the limit is set to it.
unfoldable pub cap_number : String → Number → Params → Params
cap_number key limit params =
    if above limit (value_number (get key params))
    then put key (scalar (number limit)) params
    else params

-- A path of more points loses its tail.
unfoldable pub cap_path : ℕ → Params → Params
cap_path most params = elim (value_list (get "path" params)) [
  | none ↦ params
  | some items ↦
      if ltb most (length items) then put "path" (list (take most items)) params else params
]

-- `_clamp_params_to_profile`, before the validation.
unfoldable pub clamp_params_to_profile : Params → Option DeviceProfile → Params
clamp_params_to_profile params none = params
clamp_params_to_profile params (some profile) =
    cap_path profile.max_path_points (cap_number "feed" profile.max_feed params)

-- What `apply_profile_constraints` does to the parameters of the finished task.
unfoldable pub apply_profile_constraints : Params → DeviceProfile → Params
apply_profile_constraints params profile =
    cap_number "feed" profile.max_feed (cap_path profile.max_path_points params)
