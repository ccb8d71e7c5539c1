-- ===== src/Policy/Tests.antt =====
-- Versions and decisions at concrete firmware.
use qwen.Prelude.{◌≡◌, refl, ◌↔◌, none, some, [], ◌∷◌}
use qwen.Prelude.Dict.{get, member}
use qwen.MotionParams.{
  whole, number, scalar, Params, DeviceProfile, lt, le, scale, profile_limit_error,
}
use qwen.Policy.{
  IntReader, firmware_status, compatible, outdated, allow, reject, decide,
  validate_profile_compatibility,
}
use qwen.Policy.Version.{digits_value, parse_version, version_geq, all_digits, is_digit, is_space}
use qwen.Policy.Ordered.{firmware_status-join}
use qwen.Policy.Read.{join, numbers, parse_version-join}
use qwen.Policy.Allowed.{ProtocolAllows, ProfileAllows, decide_exact}

abbrev int_of : IntReader
int_of seg = none

minor_ten : firmware_status int_of "v1.10.0" ≡ compatible
unfolding firmware_status parse_version version_geq is_space is_digit
minor_ten = refl

-- A text that is shorter than `v1.0.0` is older than it.
two_segments : firmware_status int_of "v1.0" ≡ outdated
unfolding firmware_status parse_version version_geq is_space is_digit
two_segments = refl

firmware_status-join_example : firmware_status int_of "v2.10.3" ≡ compatible
unfolding all_digits is_digit digits_value
firmware_status-join_example =
    firmware_status-join int_of "v2.10.3" (50 ∷ []) (49 ∷ 48 ∷ []) (51 ∷ []) refl (refl, refl)
      (refl, refl) (refl, refl)

-- The segments `1`, `10` and `0`.
parse_version-join_example :
    parse_version int_of (b'v' ∷ join (49 ∷ []) ((49 ∷ 48 ∷ []) ∷ (48 ∷ []) ∷ []))
    ≡ numbers ((49 ∷ []) ∷ (49 ∷ 48 ∷ []) ∷ (48 ∷ []) ∷ [])
unfolding all_digits is_digit
parse_version-join_example =
    parse_version-join int_of (49 ∷ []) ((49 ∷ 48 ∷ []) ∷ (48 ∷ []) ∷ []) (refl, refl)
      ((refl, refl), ((refl, refl), tt))

abbrev plotter : DeviceProfile
plotter = record {
  workspace_mm =
      ("x", number (whole 60)) ∷ ("y", number (whole 60)) ∷ ("z", number (whole 10)) ∷ [];
  max_feed = whole 600;
  max_path_points = 50;
  capabilities = "run_path" ∷ [];
  supported_fw_prefixes = "" ∷ [];
}

abbrev fast : Params
fast = ("feed", scalar (number (whole 900))) ∷ []

too_fast : decide int_of "run_path" "v1.10.0" fast (some plotter) ≡ reject
unfolding decide firmware_status parse_version version_geq is_space is_digit
    validate_profile_compatibility profile_limit_error get member lt le scale
too_fast = refl

decide_exact_example : (decide int_of "run_path" "v1.10.0" fast (some plotter) ≡ allow) ↔ (
    ProtocolAllows int_of "run_path" "v1.10.0"
    × ProfileAllows "run_path" "v1.10.0" fast (some plotter))
decide_exact_example = decide_exact int_of "run_path" "v1.10.0" fast (some plotter)
