-- ===== src/MotionParams/MoveWithin.antt =====
-- What the checks of `move_abs` and `move_rel` accept.
use qwen.Prelude.{
  ℕ, ◌≡◌, refl, ◌∙◌, String, Bool, true, false, ◌&&◌, not, Option, none, some, List, [], ◌∷◌, inl,
  inr, arith, str_eq, Bool-cases, any,
}
use qwen.Prelude.Dict.{get, put, get-put_ne, get-put_self, has}
use qwen.MotionParams.{number, Value, scalar, Params, DeviceProfile}
use qwen.MotionParams.Path.{Builtins, ◌>>=◌, parse_feed_value, feed_or}
use qwen.MotionParams.Move.{
  move_axes, move_base, targets, axis_scalar, check_target, with_feed, validate_move_abs,
  validate_move_rel, steps, check_step, if_moving, validate_move_params,
}
use qwen.MotionParams.Within.{
  IsWithin, Ensures, Ensures-each, Ensures-bind, Legal, parse_feed_value-Legal,
}

-- A move has no path.
abbrev NoPath : Params → Type 0
NoPath s = get "path" s ≡ none

put-NoPath :
    (key : String) (v : Value) (s : Params)
    → str_eq key "path" ≡ false
    → NoPath s
    → NoPath (put key v s)
put-NoPath key v s ne h = get-put_ne key "path" v s ne ∙ h

targets-NoPath :
    (axes : List String) (params : Params) (profile : Option DeviceProfile) (s : Params)
    → any (λ axis. str_eq axis "path") axes ≡ false
    → NoPath s
    → Ensures NoPath (targets axes params profile s)
unfolding targets
targets-NoPath [] params profile s ne h = h
targets-NoPath (axis ∷ rest) params profile s ne h =
    Ensures-each NoPath (axis_scalar axis params >>= check_target axis profile) _ (λ v.
      targets-NoPath rest params profile _ (ground arith)
        (put-NoPath axis (scalar (number v)) s (ground arith) h))

steps-NoPath :
    (axes : List String) (params : Params) (non_zero : Bool) (s : Params)
    → any (λ axis. str_eq axis "path") axes ≡ false
    → NoPath s
    → Ensures (λ r. NoPath r.0) (steps axes params non_zero s)
unfolding steps
steps-NoPath [] params non_zero s ne h = h
steps-NoPath (axis ∷ rest) params non_zero s ne h =
    elim (Bool-cases (str_eq axis "dz" && not (has axis params))) [
      | inl e ↦ rw e (
          steps-NoPath rest params non_zero _ (ground arith) (put-NoPath axis _ s (ground arith) h))
      | inr e ↦ rw e (
          Ensures-each (λ r. NoPath r.0) (axis_scalar axis params >>= check_step) _
            (λ v.
              steps-NoPath rest params _ _ (ground arith)
                (put-NoPath axis (scalar (number v)) s (ground arith) h)))
    ]

with_feed-IsWithin :
    (py : Builtins) (default : ℕ) (params : Params) (profile : DeviceProfile) (s : Params)
    → NoPath s
    → Ensures (IsWithin profile) (with_feed py default params s)
with_feed-IsWithin py default params profile s h =
    Ensures-bind Legal (IsWithin profile) (parse_feed_value py (feed_or default params)) _
      (parse_feed_value-Legal py (feed_or default params))
      (λ feed legal. record {
        path = rw (put-NoPath "feed" (scalar (number feed)) s refl h) tt;
        feed = rw (get-put_self "feed" (scalar (number feed)) s) legal;
      })

axes-NoPath : (has_z : Bool) → any (λ axis. str_eq axis "path") (move_axes has_z) ≡ false
axes-NoPath true = refl
axes-NoPath false = refl

if_moving-NoPath : (r : Params × Bool) → NoPath r.0 → Ensures NoPath (if_moving r)
if_moving-NoPath (s, true) h = h
if_moving-NoPath (s, false) h = tt

pub validate_move_params-IsWithin :
    (py : Builtins) (capability : String) (params : Params) (profile : DeviceProfile)
    → Ensures (IsWithin profile) (validate_move_params py capability params (some profile))
unfolding validate_move_params validate_move_abs validate_move_rel
validate_move_params-IsWithin py capability params profile =
    elim (Bool-cases (str_eq capability "move_abs")) [
      | inl e ↦ rw e (
          Ensures-bind NoPath (IsWithin profile)
            (targets (move_axes (has "z" params)) params (some profile) (move_base "move_abs")) _
            (targets-NoPath (move_axes (has "z" params)) params (some profile) _
              (axes-NoPath (has "z" params)) (unfold get in refl))
            (with_feed-IsWithin py 1000 params profile))
      | inr e ↦ rw e (
          Ensures-bind NoPath (IsWithin profile)
            (steps ("dx" ∷ "dy" ∷ "dz" ∷ []) params false (move_base "move_rel") >>= if_moving) _
            (Ensures-bind (λ r. NoPath r.0) NoPath
              (steps ("dx" ∷ "dy" ∷ "dz" ∷ []) params false (move_base "move_rel")) _
              (steps-NoPath ("dx" ∷ "dy" ∷ "dz" ∷ []) params false _ refl (unfold get in refl))
              if_moving-NoPath)
            (with_feed-IsWithin py 800 params profile))
    ]
