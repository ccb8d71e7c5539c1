-- ===== src/MotionParams/Within.antt =====
-- An accepted path stays in the workspace of the device's profile, and its feed in the limits.
use qwen.Prelude.{
  ◌≤◌, ◌≡◌, subst, String, Bool, true, false, ◌||◌, Option, none, some, List, [], ◌∷◌, inl, inr,
  arith, ltb, Bool-cases, Option-cases, length, any, All,
}
use qwen.Prelude.Dict.{Dict, get}
use qwen.Prelude.Int.{pos, ◌≤ℤ◌}
use qwen.MotionParams.{
  Number, finite, infinite, nan, whole, lt, le, Scalar, number, Item, point, no_dict, Value, scalar,
  list, Params, number_at, coordinate, DeviceProfile, axis_outside, point_outside_workspace,
  item_outside, too_many, any_item, value_list, profile_limit_error,
}
use qwen.MotionParams.Path.{
  Builtins, Checked, valid, invalid, ◌>>=◌, parse_feed_value, path_at, check_path, in_range,
  item_error, max_path_points, float_of, or_default, validate_run_path_params, feed_or,
}

-- A coordinate from 0 to the bound of its axis.
abbrev pub Between : Option Number → Option Number → Type 0
Between (some (finite v)) (some (finite bound)) = (pos 0 ≤ℤ v) × (v ≤ℤ bound)
Between v bound = ⊥

abbrev pub AxisWithin : DeviceProfile → Dict Scalar → String → Type 0
AxisWithin profile p axis = Between (coordinate axis p) (number_at (get axis profile.workspace_mm))

abbrev pub InWorkspace : DeviceProfile → Item → Type 0
InWorkspace profile no_dict = ⊥
InWorkspace profile (point p) =
    AxisWithin profile p "x" × AxisWithin profile p "y" × AxisWithin profile p "z"

abbrev pub PathWithin : DeviceProfile → Option Value → Type 0
PathWithin profile none = Unit
PathWithin profile (some (scalar s)) = ⊥
PathWithin profile (some (list items)) =
    All (InWorkspace profile) items
    × (length items ≤ profile.max_path_points)
    × (length items ≤ 200)

abbrev pub FeedWithin : Option Value → Type 0
FeedWithin none = Unit
FeedWithin (some (scalar (number n))) = (le (whole 1) n ≡ true) × (le n (whole 2000) ≡ true)
FeedWithin (some v) = ⊥

pub record IsWithin (profile : DeviceProfile) (params : Params) : Type 0 where
  pub path : PathWithin profile (get "path" params)
  pub feed : FeedWithin (get "feed" params)

axis_outside-Between : (v bound : Option Number) → axis_outside v bound ≡ false → Between v bound
unfolding axis_outside lt
axis_outside-Between none bound h = cc
axis_outside-Between (some v) none h = cc
axis_outside-Between (some (finite v)) (some (finite bound)) h = ground arith
axis_outside-Between (some (finite v)) (some (infinite s)) h = cc
axis_outside-Between (some (finite v)) (some nan) h = cc
axis_outside-Between (some (infinite s)) (some b) h = cc
axis_outside-Between (some nan) (some b) h = cc

or_false : (a b : Bool) → (a || b) ≡ false → (a ≡ false) × (b ≡ false)
or_false a b h = ground arith

item_outside-InWorkspace :
    (profile : DeviceProfile) (item : Item)
    → item_outside profile item ≡ false
    → InWorkspace profile item
unfolding item_outside point_outside_workspace
item_outside-InWorkspace profile no_dict h = cc
item_outside-InWorkspace profile (point p) h =
    let bound = λ (axis : String). number_at (get axis profile.workspace_mm) in
    let (x, yz) = or_false _ _ h in
    let (y, z') = or_false _ _ yz in
    let (z, end) = or_false _ _ z' in
    (
      axis_outside-Between (coordinate "x" p) (bound "x") x,
      axis_outside-Between (coordinate "y" p) (bound "y") y,
      axis_outside-Between (coordinate "z" p) (bound "z") z,
    )

any-InWorkspace :
    (profile : DeviceProfile) (items : List Item)
    → any (item_outside profile) items ≡ false
    → All (InWorkspace profile) items
any-InWorkspace profile [] h = tt
any-InWorkspace profile (item ∷ items) h =
    let (here, later) = or_false _ _ h in
    (item_outside-InWorkspace profile item here, any-InWorkspace profile items later)

-- A result that is valid satisfies `P`.
abbrev pub Ensures {ℓ} : {A : Type ℓ} → (A → Type 0) → Checked A → Type 0
Ensures P (valid a) = P a
Ensures P (invalid e) = Unit

pub Ensures-bind {ℓ κ} :
    {A : Type ℓ} {B : Type κ} (P : A → Type 0) (Q : B → Type 0) (m : Checked A) (f : A → Checked B)
    → Ensures P m
    → ((a : A) → P a → Ensures Q (f a))
    → Ensures Q (m >>= f)
Ensures-bind P Q (valid a) f h k = k a h
Ensures-bind P Q (invalid e) f h k = tt

pub Ensures-each {ℓ κ} :
    {A : Type ℓ} {B : Type κ} (Q : B → Type 0) (m : Checked A) (f : A → Checked B)
    → ((a : A) → Ensures Q (f a))
    → Ensures Q (m >>= f)
Ensures-each Q (valid a) f k = k a
Ensures-each Q (invalid e) f k = tt

pub Ensures-valid {ℓ} :
    {A : Type ℓ} (P : A → Type 0) (m : Checked A) (a : A) → Ensures P m → m ≡ valid a → P a
Ensures-valid P m a h e = subst (Ensures P) e h

abbrev pub Legal : Number → Type 0
Legal n = (le (whole 1) n ≡ true) × (le n (whole 2000) ≡ true)

in_range-Legal : (o : Option Number) → Ensures Legal (in_range o)
unfolding lt le
in_range-Legal none = tt
in_range-Legal (some (finite z)) =
    elim (Bool-cases (lt (finite z) (whole 1) || lt (whole 2000) (finite z))) [
      | inl e ↦ rw e tt
      | inr e ↦ rw e (ground arith, ground arith)
    ]
in_range-Legal (some (infinite s)) = tt
in_range-Legal (some nan) = tt

pub parse_feed_value-Legal : (py : Builtins) (raw : Value) → Ensures Legal (parse_feed_value py raw)
unfolding parse_feed_value
parse_feed_value-Legal py raw = in_range-Legal (float_of py (or_default raw))

-- What the limits say when no error is found.
limits_hold :
    (params : Params) (profile : DeviceProfile)
    → profile_limit_error params (some profile) ≡ none
    → (too_many profile.max_path_points (value_list (get "path" params)) ≡ false)
      × (any_item (item_outside profile) (value_list (get "path" params)) ≡ false)
unfolding profile_limit_error
limits_hold params profile h = ground (arith, h)

-- A path of the limits, and short enough for every device.
abbrev Accepted : DeviceProfile → List Item → Type 0
Accepted profile items = PathWithin profile (some (list items))

check_path-Accepted :
    (profile : DeviceProfile) (items : List Item)
    → ltb profile.max_path_points (length items) ≡ false
    → any (item_outside profile) items ≡ false
    → Ensures (Accepted profile) (check_path items)
check_path-Accepted profile [] short inside = tt
check_path-Accepted profile (item ∷ items) short inside =
    let within = any-InWorkspace profile (item ∷ items) inside in
    elim (Bool-cases (ltb max_path_points (length (item ∷ items)))) [
      | inl e ↦ rw e tt
      | inr e ↦ rw e (elim (Bool-cases (any item_error (item ∷ items))) [
        | inl f ↦ rw f tt
        | inr f ↦ rw f (within, ground arith, ground arith)
      ])
    ]

path_at-Accepted :
    (profile : DeviceProfile) (o : Option Value)
    → too_many profile.max_path_points (value_list o) ≡ false
    → any_item (item_outside profile) (value_list o) ≡ false
    → Ensures (Accepted profile) (path_at o)
path_at-Accepted profile none short inside = tt
path_at-Accepted profile (some (scalar s)) short inside = tt
path_at-Accepted profile (some (list items)) short inside =
    check_path-Accepted profile items short inside

-- An accepted path and feed are in the limits.
pub run_path-IsWithin :
    (py : Builtins) (params : Params) (profile : DeviceProfile)
    → Ensures (IsWithin profile) (validate_run_path_params py params (some profile))
unfolding validate_run_path_params
run_path-IsWithin py params profile =
    elim (Option-cases (profile_limit_error params (some profile))) [
      | inr (code, e) ↦ rw e tt
      | inl e ↦
          let (short, inside) = limits_hold params profile e in
          rw e (
            Ensures-bind (Accepted profile) (IsWithin profile) (path_at (get "path" params)) _
              (path_at-Accepted profile (get "path" params) short inside)
              (λ path accepted.
                Ensures-bind Legal (IsWithin profile) (parse_feed_value py (feed_or 500 params)) _
                  (parse_feed_value-Legal py (feed_or 500 params))
                  (λ feed legal. record {
                    path = unfold get in accepted;
                    feed = unfold get in legal;
                  })))
    ]
