-- ===== src/MotionParams/Capability.antt =====
-- device_gateway/path_validator.py: `validate_capability_params`, the check of every capability.
use qwen.Prelude.{
  ℕ, zero, suc, String, Bool, true, false, ◌&&◌, ◌||◌, not, Option, none, some, List, [], ◌∷◌,
  if◌then◌else◌, ◌==◌, str_eq,
}
use Prim.Native.Char.{code}
use qwen.Prelude.Dict.{Dict, get, get_or, put, has, member}
use qwen.MotionParams.{
  Number, whole, lt, is_finite, null, boolean, number, text, nested, Value, scalar, list, Params,
  DeviceProfile, MotionErrorCode, e_bad_params, e_unsupported_capability,
}
use qwen.MotionParams.Path.{
  Builtins, Checked, valid, invalid, ◌>>=◌, min_feed, max_feed, float_of, or_default, source_of,
  validate_run_path_params,
}
use qwen.MotionParams.Move.{validate_move_params}

-- `CAPABILITY_PATH_MAP`
abbrev pub capability_path_map : Dict (List String)
capability_path_map =
    ("run_path", "path" ∷ "feed" ∷ [])
    ∷ ("write_text", "path" ∷ "feed" ∷ "text" ∷ [])
    ∷ ("draw_generated", "path" ∷ "feed" ∷ "prompt" ∷ [])
    ∷ ("handwriting", "path" ∷ "feed" ∷ "text" ∷ [])
    ∷ ("move_abs", "x" ∷ "y" ∷ [])
    ∷ ("move_rel", "dx" ∷ "dy" ∷ [])
    ∷ ("home", [])
    ∷ ("pause", [])
    ∷ ("resume", [])
    ∷ ("stop", [])
    ∷ ("estop", [])
    ∷ ("get_device_info", [])
    ∷ []

-- `CONTROL_CAPABILITIES` of model_routing.py
abbrev pub control_capabilities : List String
control_capabilities = "home" ∷ "pause" ∷ "resume" ∷ "stop" ∷ "estop" ∷ "get_device_info" ∷ []

abbrev pub move_capabilities : List String
move_capabilities = "move_abs" ∷ "move_rel" ∷ []

abbrev pub path_generating_capabilities : List String
path_generating_capabilities = "write_text" ∷ "draw_generated" ∷ "handwriting" ∷ []

-- Whether Python takes a value for true.
abbrev is_zero : Number → Bool
is_zero n = is_finite n && not (lt n (whole 0)) && not (lt (whole 0) n)

abbrev is_true : Value → Bool
is_true (scalar null) = false
is_true (scalar (boolean b)) = b
is_true (scalar (number n)) = not (is_zero n)
is_true (scalar (text s)) = not (str_eq s "")
is_true (scalar (nested b)) = b
is_true (list []) = false
is_true (list (item ∷ items)) = true

abbrev holds : String → Params → Bool
holds key params = is_true (get_or key params (scalar null))

-- `_has_draw_image_ref`
unfoldable pub has_draw_image_ref : Params → Bool
has_draw_image_ref params =
    holds "image_url" params
    || holds "imageUrl" params
    || holds "gallery_image_id" params
    || holds "galleryImageId" params

abbrev is_given : String → String → Params → Bool
is_given capability field params =
    str_eq field "path"
    || str_eq field "feed"
    || (str_eq capability "draw_generated"
        && str_eq field "prompt"
        && has_draw_image_ref params
        && has field params)
    || holds field params

-- `_required_fields_present`
unfoldable pub required_fields_present : String → List String → Params → Option MotionErrorCode
unfolding has_draw_image_ref
required_fields_present capability [] params = none
required_fields_present capability (field ∷ required) params =
    let rest = required_fields_present capability required params in
    if is_given capability field params then rest else some e_bad_params

-- `value[:limit]`
abbrev cut : ℕ → String → String
cut zero s = String.[]
cut (suc n) String.[] = String.[]
cut (suc n) (String.◌∷◌ c s) = String.◌∷◌ c (cut n s)

-- `key.startswith("_")`
abbrev pub is_private : String → Bool
is_private String.[] = false
is_private (String.◌∷◌ c s) = code c == b'_'

abbrev pub copy_value : String → Value → Params → Params
copy_value key (scalar (text s)) sanitized =
    put key (scalar (text (cut (if str_eq key "preview_svg" then 8192 else 120) s))) sanitized
copy_value key (scalar (number n)) sanitized = put key (scalar (number n)) sanitized
copy_value key (scalar (boolean b)) sanitized = put key (scalar (boolean b)) sanitized
copy_value key (scalar null) sanitized = sanitized
copy_value key (scalar (nested b)) sanitized = sanitized
copy_value key (list items) sanitized = sanitized

-- `_copy_scalar_params`
unfoldable pub copy_scalar_params : Params → Params → Params
copy_scalar_params [] sanitized = sanitized
copy_scalar_params ((key, value) ∷ params) sanitized = copy_scalar_params params (
    if str_eq key "path" || str_eq key "feed" || is_private key
    then sanitized
    else copy_value key value sanitized)

-- `max(MIN_FEED, min(MAX_FEED, feed))` of a number; one that is not finite is 500.
abbrev pub clamp : Number → Number
clamp feed =
    let below = if lt feed max_feed then feed else max_feed in
    if lt min_feed below then below else min_feed

abbrev pub finite_or_default : Option Number → Number
finite_or_default none = whole 500
finite_or_default (some feed) = if is_finite feed then feed else whole 500

-- `_clamp_feed_value`; `params.get("feed")` of a missing key is `None`.
unfoldable pub clamp_feed_value : Builtins → Value → Number
unfolding float_of
clamp_feed_value py raw = clamp (finite_or_default (float_of py (or_default raw)))

abbrev pub path_of : Params → Option Value
path_of sanitized = get "path" sanitized

abbrev pub preserve : Option Value → Params → Params
preserve none sanitized = sanitized
preserve (some path) sanitized = put "path" path sanitized

-- `_maybe_preserve_path`
unfoldable pub maybe_preserve_path :
    Builtins → Params → Option DeviceProfile → Params → Checked Params
maybe_preserve_path py params profile sanitized = elim (get "path" params) [
  | none ↦ valid sanitized
  | some (scalar s) ↦ valid sanitized
  | some (list []) ↦ valid sanitized
  | some (list (item ∷ items)) ↦ validate_run_path_params py params profile >>= λ validated.
      valid (preserve (path_of validated) sanitized)
]

abbrev pub no_missing : Option MotionErrorCode → Params → Params → Checked Params
no_missing none params sanitized = valid (copy_scalar_params params sanitized)
no_missing (some code) params sanitized = invalid code

abbrev pub source_only : Builtins → String → Params → Params
source_only py capability params = ("source_capability", source_of py capability params) ∷ []

abbrev pub generated : Builtins → String → Params → Params
generated py capability params =
    ("feed", scalar (number (clamp_feed_value py (get_or "feed" params (scalar null)))))
    ∷ source_only py capability params

-- The check of a path, given or to be generated.
unfoldable pub check_drawn : Builtins → String → Params → Option DeviceProfile → Checked Params
check_drawn py capability params profile =
    if member capability path_generating_capabilities
    then maybe_preserve_path py params profile (generated py capability params)
    else validate_run_path_params py params profile

unfoldable pub check_required :
    Builtins → String → List String → Params → Option DeviceProfile → Checked Params
unfolding check_drawn required_fields_present
check_required py capability required params profile =
    if member capability control_capabilities
    then valid (source_only py capability params)
    else if member capability move_capabilities
    then validate_move_params py capability params profile
    else check_drawn py capability params profile
      >>= no_missing (required_fields_present capability required params) params

unfoldable pub validate_capability_params :
    Builtins → String → Params → Option DeviceProfile → Checked Params
unfolding check_required
validate_capability_params py capability params profile =
    elim (get capability capability_path_map) [
      | none ↦ invalid e_unsupported_capability
      | some required ↦ check_required py capability required params profile
    ]
