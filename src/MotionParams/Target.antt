-- ===== src/MotionParams/Target.antt =====
-- Where an accepted `move_abs` goes.
use qwen.Prelude.{
  ◌≡◌, refl, String, Bool, true, false, ◌||◌, Option, none, some, inl, inr, arith, Bool-cases,
}
use qwen.Prelude.Dict.{get, get_or, put, get-put_ne, has, member}
use qwen.MotionParams.{
  Number, finite, infinite, nan, whole, lt, is_finite, null, boolean, number, text, nested, Value,
  scalar, list, Params, DeviceProfile, number_at, value_number,
}
use qwen.MotionParams.Path.{
  Builtins, valid, ◌>>=◌, min_point_coord, max_point_coord, parse_feed_value, feed_or,
}
use qwen.MotionParams.Move.{
  move_axes, move_base, plain_number, beyond, above_bound, targets, axis_scalar, check_target,
  validate_move_abs, validate_move_params,
}
use qwen.MotionParams.Capability.{validate_capability_params}
use qwen.MotionParams.Within.{Between, Ensures, Ensures-each, Ensures-valid, Ensures-bind}

-- The target of an accepted `move_abs`: each coordinate that it has lies in the workspace.
abbrev pub CoordinateWithin : DeviceProfile → String → Option Value → Type 0
CoordinateWithin profile axis v =
    Between (value_number v) (number_at (get axis profile.workspace_mm))

abbrev pub HeightWithin : DeviceProfile → Option Value → Type 0
HeightWithin profile none = Unit
HeightWithin profile (some v) = CoordinateWithin profile "z" (some v)

abbrev pub TargetWithin : DeviceProfile → Params → Type 0
TargetWithin profile s =
    CoordinateWithin profile "x" (get "x" s)
    × CoordinateWithin profile "y" (get "y" s)
    × HeightWithin profile (get "z" s)

abbrev Reachable : DeviceProfile → String → Number → Type 0
Reachable profile axis v = Between (some v) (number_at (get axis profile.workspace_mm))

above_bound-Between :
    (v : Number) (bound : Option Number)
    → is_finite v ≡ true
    → above_bound v bound ≡ false
    → Between (some v) bound
unfolding above_bound lt
above_bound-Between v none fin h = cc
above_bound-Between (finite v) (some (finite bound)) fin h = ground arith
above_bound-Between (finite v) (some (infinite s)) fin h = cc
above_bound-Between (finite v) (some nan) fin h = cc
above_bound-Between (infinite s) (some b) fin h = cc
above_bound-Between nan (some b) fin h = cc

plain_number-finite : (v : Value) → Ensures (λ n. is_finite n ≡ true) (plain_number v)
unfolding plain_number
plain_number-finite (scalar (number (finite z))) = refl
plain_number-finite (scalar (number (infinite s))) = tt
plain_number-finite (scalar (number nan)) = tt
plain_number-finite (scalar null) = tt
plain_number-finite (scalar (boolean b)) = tt
plain_number-finite (scalar (text s)) = tt
plain_number-finite (scalar (nested b)) = tt
plain_number-finite (list items) = tt

check_target-Reachable :
    (axis : String) (profile : DeviceProfile) (v : Number)
    → is_finite v ≡ true
    → Ensures (Reachable profile axis) (check_target axis (some profile) v)
unfolding check_target
check_target-Reachable axis profile v fin =
    elim (Bool-cases (lt v min_point_coord || lt max_point_coord v)) [
      | inl e ↦ rw e tt
      | inr e ↦ rw e (elim (Bool-cases (beyond axis v (some profile))) [
        | inl f ↦ rw f tt
        | inr f ↦ rw f (above_bound-Between v (number_at (get axis profile.workspace_mm)) fin f)
      ])
    ]

axis-Reachable :
    (axis : String) (params : Params) (profile : DeviceProfile)
    → Ensures
        (Reachable profile axis)
        (axis_scalar axis params >>= check_target axis (some profile))
unfolding axis_scalar
axis-Reachable axis params profile =
    Ensures-bind (λ v. is_finite v ≡ true) (Reachable profile axis) (axis_scalar axis params) _
      (plain_number-finite (get_or axis params (scalar (number (whole 0)))))
      (check_target-Reachable axis profile)

abbrev set : String → Number → Params → Params
set axis v s = put axis (scalar (number v)) s

targets-TargetWithin :
    (has_z : Bool) (params : Params) (profile : DeviceProfile)
    → Ensures
        (TargetWithin profile)
        (targets (move_axes has_z) params (some profile) (move_base "move_abs"))
unfolding targets
targets-TargetWithin true params profile =
    Ensures-bind (Reachable profile "x") (TargetWithin profile) _ _
      (axis-Reachable "x" params profile)
      λ x hx.
        Ensures-bind (Reachable profile "y") (TargetWithin profile) _ _
          (axis-Reachable "y" params profile)
          λ y hy.
            Ensures-bind (Reachable profile "z") (TargetWithin profile) _
              (λ z. valid (set "z" z (set "y" y (set "x" x (move_base "move_abs")))))
              (axis-Reachable "z" params profile) λ z hz. unfold get put in (hx, hy, hz)
targets-TargetWithin false params profile =
    Ensures-bind (Reachable profile "x") (TargetWithin profile) _ _
      (axis-Reachable "x" params profile)
      λ x hx.
        Ensures-bind (Reachable profile "y") (TargetWithin profile) _
          (λ y. valid (set "y" y (set "x" x (move_base "move_abs"))))
          (axis-Reachable "y" params profile) λ y hy. unfold get put in (hx, hy, tt)

feed-TargetWithin :
    (profile : DeviceProfile) (feed : Value) (s : Params)
    → TargetWithin profile s
    → TargetWithin profile (put "feed" feed s)
feed-TargetWithin profile feed s h =
    rw
      (
        get-put_ne "feed" "x" feed s refl,
        get-put_ne "feed" "y" feed s refl,
        get-put_ne "feed" "z" feed s refl,
      )
      h

validate_move_abs-TargetWithin :
    (py : Builtins) (params : Params) (profile : DeviceProfile)
    → Ensures (TargetWithin profile) (validate_move_abs py params (some profile))
unfolding validate_move_abs
validate_move_abs-TargetWithin py params profile =
    Ensures-bind (TargetWithin profile) (TargetWithin profile) _ _
      (targets-TargetWithin (has "z" params) params profile)
      λ s h.
        Ensures-each (TargetWithin profile) (parse_feed_value py (feed_or 1000 params)) _
          λ feed. feed-TargetWithin profile (scalar (number feed)) s h

-- An absolute move that is accepted for a profile goes to a point of its workspace: `x` and `y` are
-- numbers from 0 to the bounds of their axes, and so is `z` where the move has it.
pub move_abs_within :
    (py : Builtins) (params : Params) (profile : DeviceProfile) (s : Params)
    → validate_capability_params py "move_abs" params (some profile) ≡ valid s
    → TargetWithin profile s
unfolding validate_capability_params get member validate_move_params
move_abs_within py params profile s h =
    Ensures-valid (TargetWithin profile) (validate_move_abs py params (some profile)) s
      (validate_move_abs-TargetWithin py params profile) h
