-- ===== src/MotionParams/Accepted.antt =====
-- What `validate_capability_params` accepts of any capability, and what the caps make of it.
use qwen.Prelude.{
  ◌≡◌, refl, String, true, false, ◌||◌, Option, none, some, List, [], ◌∷◌, inl, inr, arith, ltb,
  str_eq, Bool-cases, Option-cases, length,
}
use qwen.Prelude.Dict.{get, get_or, put, get-put_ne, get-put_self, member}
use qwen.MotionParams.{
  Number, finite, infinite, nan, whole, lt, le, is_finite, null, boolean, number, text, nested,
  Value, scalar, list, Params, DeviceProfile, MotionErrorCode, cap_number, cap_path,
  apply_profile_constraints, value_number, above, clamp_params_to_profile,
}
use qwen.MotionParams.Path.{Builtins, valid, ◌>>=◌, float_of, or_default, validate_run_path_params}
use qwen.MotionParams.Capability.{
  validate_capability_params, capability_path_map, control_capabilities, move_capabilities,
  path_generating_capabilities, required_fields_present, copy_scalar_params, copy_value, is_private,
  clamp, clamp_feed_value, finite_or_default, preserve, path_of, maybe_preserve_path, no_missing,
  source_only, generated, check_drawn, check_required,
}
use qwen.MotionParams.MoveWithin.{validate_move_params-IsWithin}
use qwen.MotionParams.Within.{
  PathWithin, FeedWithin, IsWithin, Ensures, Ensures-valid, Ensures-bind, Legal, run_path-IsWithin,
}

-- Two sets of parameters with the same path and the same feed.
record SameMotion (s t : Params) : Type 0 where
  path_same : get "path" t ≡ get "path" s
  feed_same : get "feed" t ≡ get "feed" s

same-IsWithin :
    (profile : DeviceProfile) (s t : Params)
    → SameMotion s t
    → IsWithin profile s
    → IsWithin profile t
same-IsWithin profile s t same w = record {
  path = rw (same.path_same) w.path;
  feed = rw (same.feed_same) w.feed;
}

put-SameMotion :
    (key : String) (v : Value) (s : Params)
    → str_eq key "path" ≡ false
    → str_eq key "feed" ≡ false
    → SameMotion s (put key v s)
put-SameMotion key v s p f = record {
  path_same = get-put_ne key "path" v s p;
  feed_same = get-put_ne key "feed" v s f;
}

copy_value-SameMotion :
    (key : String) (v : Value) (s : Params)
    → str_eq key "path" ≡ false
    → str_eq key "feed" ≡ false
    → SameMotion s (copy_value key v s)
copy_value-SameMotion key (scalar null) s p f = record { path_same = refl; feed_same = refl }
copy_value-SameMotion key (scalar (boolean b)) s p f = put-SameMotion key _ s p f
copy_value-SameMotion key (scalar (number n)) s p f = put-SameMotion key _ s p f
copy_value-SameMotion key (scalar (text t)) s p f = put-SameMotion key _ s p f
copy_value-SameMotion key (scalar (nested b)) s p f = record { path_same = refl; feed_same = refl }
copy_value-SameMotion key (list items) s p f = record { path_same = refl; feed_same = refl }

-- The copied parameters leave the path and the feed alone.
copy_scalar_params-IsWithin :
    (profile : DeviceProfile) (params s : Params)
    → IsWithin profile s
    → IsWithin profile (copy_scalar_params params s)
unfolding copy_scalar_params
copy_scalar_params-IsWithin profile [] s w = w
copy_scalar_params-IsWithin profile ((key, v) ∷ params) s w =
    elim (Bool-cases (str_eq key "path" || str_eq key "feed" || is_private key)) [
      | inl e ↦ rw e (copy_scalar_params-IsWithin profile params s w)
      | inr e ↦ rw e (
          copy_scalar_params-IsWithin profile params (copy_value key v s) (
            same-IsWithin profile s (copy_value key v s)
              (copy_value-SameMotion key v s (ground arith) (ground arith)) w))
    ]

clamp-Legal : (n : Number) → is_finite n ≡ true → Legal (clamp n)
unfolding lt le
clamp-Legal (finite z) h = ground arith
clamp-Legal (infinite s) h = cc
clamp-Legal nan h = cc

finite_or_default-finite : (o : Option Number) → is_finite (finite_or_default o) ≡ true
finite_or_default-finite none = refl
finite_or_default-finite (some (finite z)) = refl
finite_or_default-finite (some (infinite s)) = refl
finite_or_default-finite (some nan) = refl

clamp_feed_value-Legal : (py : Builtins) (raw : Value) → Legal (clamp_feed_value py raw)
unfolding clamp_feed_value
clamp_feed_value-Legal py raw =
    clamp-Legal (finite_or_default (float_of py (or_default raw)))
      (finite_or_default-finite (float_of py (or_default raw)))

generated-IsWithin :
    (py : Builtins) (capability : String) (params : Params) (profile : DeviceProfile)
    → IsWithin profile (generated py capability params)
generated-IsWithin py capability params profile = record {
  path = unfold get in tt;
  feed = unfold get in clamp_feed_value-Legal py (get_or "feed" params (scalar null));
}

preserve-IsWithin :
    (profile : DeviceProfile) (path : Option Value) (s : Params)
    → PathWithin profile path
    → IsWithin profile s
    → IsWithin profile (preserve path s)
preserve-IsWithin profile none s p w = w
preserve-IsWithin profile (some path) s p w = record {
  path = rw (get-put_self "path" path s) p;
  feed = rw (get-put_ne "path" "feed" path s refl) w.feed;
}

maybe_preserve_path-IsWithin :
    (py : Builtins) (params : Params) (profile : DeviceProfile) (s : Params)
    → IsWithin profile s
    → Ensures (IsWithin profile) (maybe_preserve_path py params (some profile) s)
unfolding maybe_preserve_path
maybe_preserve_path-IsWithin py params profile s w =
    elim (get "path" params)
      as (λ o. Ensures (IsWithin profile) (elim o [
        | none ↦ valid s
        | some (scalar v) ↦ valid s
        | some (list []) ↦ valid s
        | some (list (item ∷ items)) ↦
            validate_run_path_params py params (some profile) >>= λ validated.
            valid (preserve (path_of validated) s)
      ])) [
        | none ↦ w
        | some (scalar v) ↦ w
        | some (list []) ↦ w
        | some (list (item ∷ items)) ↦
            Ensures-bind (IsWithin profile) (IsWithin profile)
              (validate_run_path_params py params (some profile)) _
              (run_path-IsWithin py params profile)
              (λ validated v. preserve-IsWithin profile (path_of validated) s v.path w)
      ]

no_missing-IsWithin :
    (profile : DeviceProfile) (missing : Option MotionErrorCode) (params s : Params)
    → IsWithin profile s
    → Ensures (IsWithin profile) (no_missing missing params s)
no_missing-IsWithin profile none params s w = copy_scalar_params-IsWithin profile params s w
no_missing-IsWithin profile (some code) params s w = tt

check_drawn-IsWithin :
    (py : Builtins) (capability : String) (params : Params) (profile : DeviceProfile)
    → Ensures (IsWithin profile) (check_drawn py capability params (some profile))
unfolding check_drawn
check_drawn-IsWithin py capability params profile =
    elim (Bool-cases (member capability path_generating_capabilities)) [
      | inl e ↦ rw e (
          maybe_preserve_path-IsWithin py params profile _
            (generated-IsWithin py capability params profile))
      | inr e ↦ rw e (run_path-IsWithin py params profile)
    ]

source_only-IsWithin :
    (py : Builtins) (capability : String) (params : Params) (profile : DeviceProfile)
    → IsWithin profile (source_only py capability params)
source_only-IsWithin py capability params profile = record {
  path = unfold get in tt;
  feed = unfold get in tt;
}

check_required-IsWithin :
    (py : Builtins) (capability : String) (required : List String) (params : Params)
    (profile : DeviceProfile)
    → Ensures (IsWithin profile) (check_required py capability required params (some profile))
unfolding check_required
check_required-IsWithin py capability required params profile =
    elim (Bool-cases (member capability control_capabilities)) [
      | inl e ↦ rw e (source_only-IsWithin py capability params profile)
      | inr e ↦ rw e (elim (Bool-cases (member capability move_capabilities)) [
        | inl f ↦ rw f (validate_move_params-IsWithin py capability params profile)
        | inr f ↦ rw f (
            Ensures-bind (IsWithin profile) (IsWithin profile)
              (check_drawn py capability params (some profile)) _
              (check_drawn-IsWithin py capability params profile)
              (λ s w.
                no_missing-IsWithin profile (required_fields_present capability required params)
                  params s w))
      ])
    ]

validate_capability_params-IsWithin :
    (py : Builtins) (capability : String) (params : Params) (profile : DeviceProfile)
    → Ensures (IsWithin profile) (validate_capability_params py capability params (some profile))
unfolding validate_capability_params
validate_capability_params-IsWithin py capability params profile =
    elim (Option-cases (get capability capability_path_map)) [
      | inl e ↦ rw (e, validate_capability_params) tt
      | inr (required, e) ↦
          rw (e, validate_capability_params)
            (check_required-IsWithin py capability required params profile)
    ]

-- A feed that is at most 2000 and not above the profile's limit.
abbrev pub FeedLimited : DeviceProfile → Option Value → Type 0
FeedLimited profile none = Unit
FeedLimited profile (some (scalar (number n))) =
    (le n (whole 2000) ≡ true) × (lt profile.max_feed n ≡ false)
FeedLimited profile (some v) = ⊥

le-capped : (limit n bound : Number) → lt limit n ≡ true → le n bound ≡ true → le limit bound ≡ true
unfolding lt le
le-capped (finite a) (finite b) (finite c) h k = ground arith
le-capped (infinite s) (finite b) (finite c) h k = ground arith
le-capped (finite a) (infinite t) (infinite u) h k = ground arith
le-capped (infinite s) (infinite t) (infinite u) h k = ground arith
le-capped (finite a) (finite b) (infinite u) h k = ground arith
le-capped (infinite s) (finite b) (infinite u) h k = ground arith
le-capped (finite a) (infinite t) (finite c) h k = ground arith
le-capped (infinite s) (infinite t) (finite c) h k = ground arith
le-capped nan n c h k = cc
le-capped (finite a) nan c h k = cc
le-capped (infinite a) nan c h k = cc
le-capped (finite a) (finite b) nan h k = cc
le-capped (infinite a) (finite b) nan h k = cc
le-capped (finite a) (infinite b) nan h k = cc
le-capped (infinite a) (infinite b) nan h k = cc

lt_irrefl : (n : Number) → lt n n ≡ false
unfolding lt
lt_irrefl (finite z) = ground arith
lt_irrefl (infinite true) = refl
lt_irrefl (infinite false) = refl
lt_irrefl nan = refl

cap_number-FeedLimited :
    (profile : DeviceProfile) (s : Params) (o : Option Value)
    → get "feed" s ≡ o
    → FeedWithin o
    → FeedLimited profile (get "feed" (cap_number "feed" profile.max_feed s))
unfolding cap_number
cap_number-FeedLimited profile s none is w = rw (is, cap_number, is) tt
cap_number-FeedLimited profile s (some (scalar (number n))) is w =
    elim (Bool-cases (lt profile.max_feed n)) [
      | inl e ↦
          rw (is, cap_number, e, get-put_self "feed" (scalar (number profile.max_feed)) s)
            (le-capped profile.max_feed n (whole 2000) e w.1, lt_irrefl profile.max_feed)
      | inr e ↦ rw (is, cap_number, e, is) (w.1, e)
    ]
cap_number-FeedLimited profile s (some (scalar null)) is w = absurd w
cap_number-FeedLimited profile s (some (scalar (boolean b))) is w = absurd w
cap_number-FeedLimited profile s (some (scalar (text t))) is w = absurd w
cap_number-FeedLimited profile s (some (scalar (nested b))) is w = absurd w
cap_number-FeedLimited profile s (some (list items)) is w = absurd w

cap_number-path :
    (limit : Number) (s : Params) → get "path" (cap_number "feed" limit s) ≡ get "path" s
unfolding cap_number
cap_number-path limit s = elim (Bool-cases (above limit (value_number (get "feed" s)))) [
  | inl e ↦ rw e (get-put_ne "feed" "path" (scalar (number limit)) s refl)
  | inr e ↦ rw e refl
]

-- A path of the limits is not cut.
cap_path-accepted :
    (profile : DeviceProfile) (s : Params) (o : Option Value)
    → get "path" s ≡ o
    → PathWithin profile o
    → cap_path profile.max_path_points s ≡ s
unfolding cap_path
cap_path-accepted profile s none is w = rw (is, cap_path) refl
cap_path-accepted profile s (some (scalar v)) is w = absurd w
cap_path-accepted profile s (some (list items)) is w =
    let short : ltb profile.max_path_points (length items) ≡ false = ground (arith, w.1) in
    rw (is, cap_path, short) refl

-- Whatever parameters a task of whatever capability is made with, clamped to the device's profile: where they are
-- accepted for the profile, the parameters that the task ends with after its constraints are safe.
-- A path has at most `max_path_points` points and at most 200, and each of them is a dict whose
-- coordinates are numbers from 0 to the bounds of their axes. A feed is at most 2000 and not above the
-- profile's `max_feed`.
pub dispatched_within :
    (py : Builtins) (capability : String) (params : Params) (profile : DeviceProfile) (s : Params)
    → validate_capability_params py capability
        (clamp_params_to_profile params (some profile))
        (some profile)
      ≡ valid s
    → let t = apply_profile_constraints s profile in
      PathWithin profile (get "path" t) × FeedLimited profile (get "feed" t)
unfolding apply_profile_constraints
dispatched_within py capability params profile s h =
    let w =
      Ensures-valid (IsWithin profile) _ s
        (validate_capability_params-IsWithin py capability
          (clamp_params_to_profile params (some profile)) profile)
        h in
    rw (cap_path-accepted profile s (get "path" s) refl w.path, cap_number-path profile.max_feed s)
      (w.path, cap_number-FeedLimited profile s (get "feed" s) refl w.feed)
