-- ===== src/MotionParams/Path.antt =====
-- device_gateway/path_validator.py: the points and the feed of `run_path`. What Python's `float` reads
-- from a text and what its `str` writes are arguments.
use qwen.Prelude.{
  ℕ, String, Bool, true, ◌||◌, not, Option, none, some, List, [], ◌∷◌, ltb, if◌then◌else◌, length,
  any,
}
use qwen.Prelude.Dict.{get, get_or}
use qwen.MotionParams.{
  Number, whole, minus, lt, is_finite, null, boolean, number, text, nested, Item, point, no_dict,
  Value, scalar, list, Params, coordinate, axes, DeviceProfile, MotionErrorCode, e_bad_params,
  e_missing_path, profile_limit_error,
}

-- Python's conversions: `none` where `float` raises `ValueError`.
pub record Builtins : Type 0 where
  pub parse_float : String → Option Number
  pub str : Value → String

pub data Checked {ℓ} (A : Type ℓ) : Type ℓ where
  valid : A → Checked A
  invalid : MotionErrorCode → Checked A

infixl 5 ◌>>=◌
abbrev pub ◌>>=◌ {ℓ κ} : {A : Type ℓ} {B : Type κ} → Checked A → (A → Checked B) → Checked B
valid a >>= f = f a
invalid e >>= f = invalid e

abbrev pub max_point_coord : Number
max_point_coord = whole 500

abbrev pub min_point_coord : Number
min_point_coord = minus 500

abbrev pub max_feed : Number
max_feed = whole 2000

abbrev pub min_feed : Number
min_feed = whole 1

-- `MAX_PATH_POINTS` of path_data.py
abbrev pub max_path_points : ℕ
max_path_points = 200

-- `_axis_value_error`
unfoldable pub axis_value_error : Option Number → Bool
axis_value_error none = true
axis_value_error (some v) = not (is_finite v) || lt v min_point_coord || lt max_point_coord v

unfoldable pub item_error : Item → Bool
unfolding axis_value_error
item_error no_dict = true
item_error (point p) = any (λ axis. axis_value_error (coordinate axis p)) axes

-- `float(raw)` where `raw` is not `None`
unfoldable pub float_of : Builtins → Value → Option Number
float_of py (scalar null) = none
float_of py (scalar (boolean b)) = some (whole (if b then 1 else 0))
float_of py (scalar (number n)) = some n
float_of py (scalar (text s)) = py.parse_float s
float_of py (scalar (nested b)) = none
float_of py (list items) = none

-- `raw if raw is not None else 500.0`
abbrev pub or_default : Value → Value
or_default (scalar null) = scalar (number (whole 500))
or_default v = v

abbrev pub in_range : Option Number → Checked Number
in_range none = invalid e_bad_params
in_range (some feed) =
    if not (is_finite feed) || lt feed min_feed || lt max_feed feed
    then invalid e_bad_params
    else valid feed

-- `_parse_feed_value`
unfoldable pub parse_feed_value : Builtins → Value → Checked Number
unfolding float_of
parse_feed_value py raw = in_range (float_of py (or_default raw))

-- `params.get("feed", default)`
abbrev pub feed_or : ℕ → Params → Value
feed_or default params = get_or "feed" params (scalar (number (whole default)))

-- `str(params.get("source_capability", default))`
abbrev pub source_of : Builtins → String → Params → Value
source_of py default params =
    scalar (text (py.str (get_or "source_capability" params (scalar (text default)))))

abbrev pub check_path : List Item → Checked (List Item)
check_path [] = invalid e_missing_path
check_path (item ∷ items) =
    if ltb max_path_points (length (item ∷ items))
    then invalid e_bad_params
    else if any item_error (item ∷ items)
    then invalid e_bad_params
    else valid (item ∷ items)

abbrev pub path_at : Option Value → Checked (List Item)
path_at none = invalid e_missing_path
path_at (some (scalar s)) = invalid e_missing_path
path_at (some (list items)) = check_path items

abbrev pub check_limits : Option MotionErrorCode → Checked (Unit {0})
check_limits none = valid tt
check_limits (some code) = invalid code

unfoldable pub validate_run_path_params : Builtins → Params → Option DeviceProfile → Checked Params
unfolding item_error parse_feed_value
validate_run_path_params py params profile = do
  _ ← check_limits (profile_limit_error params profile)
  path ← path_at (get "path" params)
  feed ← parse_feed_value py (feed_or 500 params)
  valid (
      ("path", list path)
      ∷ ("feed", scalar (number feed))
      ∷ ("source_capability", source_of py "unknown" params)
      ∷ [])
