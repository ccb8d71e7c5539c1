-- ===== src/Policy.antt =====
-- device_policy/engine.py, device_protocol_registry.py and device_gateway/_version_compare.py: whether a
-- task may proceed. The texts of the reasons are left out.
pub mod Version
pub mod Ordered
pub mod Read
pub mod Allowed
mod Tests
use qwen.Prelude.{
  ℕ, String, Bool, true, false, ◌&&◌, ◌||◌, not, Option, none, some, List, [], ◌∷◌, if◌then◌else◌,
  str_eq, any,
}
use text.Mathlib.Text.{starts_with}
use qwen.Prelude.Dict.{member}
use qwen.MotionParams.{
  Params, DeviceProfile, MotionErrorCode, e_unsupported_profile, profile_limit_error,
}
use qwen.Prelude.Int.{ℤ}
use qwen.Policy.Version.{codes, version_geq, parse_version}

pub data PolicyDecision : Type 0 where
  allow require_approval reject require_self_check require_home require_ota : PolicyDecision
  degrade_to_asset : PolicyDecision

-- `supported_capabilities`
abbrev pub supported_capabilities : List String
supported_capabilities =
    "run_path" ∷ "write_text" ∷ "draw_generated" ∷ "draw_asset" ∷ "home" ∷ "pause" ∷ "resume"
    ∷ "stop" ∷ "estop" ∷ "move_abs" ∷ "move_rel" ∷ "get_device_info" ∷ "self_check" ∷ []

pub data FirmwareStatus : Type 0 where
  compatible outdated unknown : FirmwareStatus

-- `min_firmware_str`
abbrev pub min_firmware : String
min_firmware = "v1.0.0"

abbrev pub IntReader : Type 0
IntReader = List ℕ → Option ℤ

unfoldable pub firmware_status : IntReader → String → FirmwareStatus
firmware_status int_of fw_rev =
    if str_eq fw_rev ""
    then unknown
    else if version_geq (parse_version int_of (codes fw_rev))
        (parse_version int_of (codes min_firmware))
    then compatible
    else outdated

-- `assert_firmware_compatible`: whether it raises.
unfoldable pub firmware_refused : IntReader → String → Bool
firmware_refused int_of fw_rev = elim (firmware_status int_of fw_rev) [
  | unknown ↦ true
  | outdated ↦ true
  | compatible ↦ false
]

unfoldable pub protocol_gate : IntReader → String → String → Option PolicyDecision
unfolding firmware_refused
protocol_gate int_of capability fw_rev =
    if not (member capability supported_capabilities)
    then some reject
    else if not (str_eq fw_rev "") && firmware_refused int_of fw_rev
    then some require_ota
    else none

-- `validate_profile_compatibility`
unfoldable pub validate_profile_compatibility : DeviceProfile → String → Option MotionErrorCode
validate_profile_compatibility profile fw_rev =
    if str_eq fw_rev ""
    then none
    else if member "" profile.supported_fw_prefixes
    then none
    else if any (λ prefix. starts_with fw_rev prefix) profile.supported_fw_prefixes
    then none
    else some e_unsupported_profile

abbrev pub of_limits : Bool → Option MotionErrorCode → Option PolicyDecision
of_limits has_capability none = if has_capability then none else some degrade_to_asset
of_limits has_capability (some code) = if has_capability then some reject else some degrade_to_asset

abbrev pub of_profile : Option MotionErrorCode → Option PolicyDecision → Option PolicyDecision
of_profile none rest = rest
of_profile (some code) rest = some reject

unfoldable pub profile_safety_gate :
    String → Params → DeviceProfile → String → Option PolicyDecision
profile_safety_gate capability params profile fw_rev =
    of_profile (validate_profile_compatibility profile fw_rev) (
      of_limits (member capability profile.capabilities)
        (profile_limit_error params (some profile)))

abbrev pub gate_of : String → Params → String → Option DeviceProfile → Option PolicyDecision
gate_of capability params fw_rev none = none
gate_of capability params fw_rev (some profile) =
    profile_safety_gate capability params profile fw_rev

abbrev pub or_else : Option PolicyDecision → PolicyDecision → PolicyDecision
or_else none d = d
or_else (some d) rest = d

unfoldable pub decide : IntReader → String → String → Params → Option DeviceProfile → PolicyDecision
unfolding protocol_gate profile_safety_gate
decide int_of capability fw_rev params profile =
    or_else (protocol_gate int_of capability fw_rev)
      (or_else (gate_of capability params fw_rev profile) allow)
