-- ===== src/Policy/Allowed.antt =====
-- When the policy lets a task proceed.
use qwen.Prelude.{
  ◌≡◌, ◌≢◌, refl, ap, ◌↔◌, ◌⊎◌, String, Bool, true, false, Option, none, some, inl, inr, arith,
  str_eq,
}
use qwen.Prelude.Dict.{member}
use qwen.MotionParams.{MotionErrorCode, Params, DeviceProfile, profile_limit_error}
use qwen.Policy.{
  IntReader, PolicyDecision, allow, supported_capabilities, firmware_status, compatible, unknown,
  outdated, FirmwareStatus, firmware_refused, protocol_gate, validate_profile_compatibility,
  profile_safety_gate, decide, of_limits, of_profile, gate_of, or_else,
}

abbrev pub ProtocolAllows : IntReader → String → String → Type 0
ProtocolAllows int_of capability fw_rev =
    (member capability supported_capabilities ≡ true)
    × ((str_eq fw_rev "" ≡ true) ⊎ (firmware_status int_of fw_rev ≡ compatible))

abbrev pub ProfileAllows : String → String → Params → Option DeviceProfile → Type 0
ProfileAllows capability fw_rev params none = Unit
ProfileAllows capability fw_rev params (some profile) =
    (validate_profile_compatibility profile fw_rev ≡ none)
    × (profile_limit_error params (some profile) ≡ none)
    × (member capability profile.capabilities ≡ true)

status-cases : (s : FirmwareStatus) → (s ≡ compatible) ⊎ (s ≡ outdated) ⊎ (s ≡ unknown)
status-cases compatible = inl refl
status-cases outdated = inr (inl refl)
status-cases unknown = inr (inr refl)

protocol_iff :
    (int_of : IntReader) (capability fw_rev : String)
    → (protocol_gate int_of capability fw_rev ≡ none) ↔ ProtocolAllows int_of capability fw_rev
unfolding protocol_gate firmware_refused
protocol_iff int_of capability fw_rev = (
  λ h. elim (status-cases (firmware_status int_of fw_rev)) [
    | inl c ↦ (ground arith, inr c)
    | inr (inl o) ↦ (ground arith, inl (ground (arith, o)))
    | inr (inr u) ↦ (ground arith, inl (ground (arith, u)))
  ],
  λ h. ground (arith, h.0, h.1),
)

profile_parts :
    (a b : Option MotionErrorCode) (has_capability : Bool)
    → (of_profile a (of_limits has_capability b) ≡ none)
      ↔ ((a ≡ none) × (b ≡ none) × (has_capability ≡ true))
profile_parts none none true = (λ h. (refl, refl, refl), λ h. refl)
profile_parts none none false = (λ h. cc, λ h. cc)
profile_parts none (some c) true = (λ h. cc, λ h. cc)
profile_parts none (some c) false = (λ h. cc, λ h. cc)
profile_parts (some c) b x = (λ h. cc, λ h. cc)

profile_iff :
    (capability fw_rev : String) (params : Params) (profile : Option DeviceProfile)
    → (gate_of capability params fw_rev profile ≡ none)
      ↔ ProfileAllows capability fw_rev params profile
unfolding profile_safety_gate
profile_iff capability fw_rev params none = (λ h. tt, λ h. refl)
profile_iff capability fw_rev params (some profile) =
    profile_parts (validate_profile_compatibility profile fw_rev)
      (profile_limit_error params (some profile)) (member capability profile.capabilities)

-- No gate says `allow`.
protocol-not_allow :
    (int_of : IntReader) (capability fw_rev : String)
    → protocol_gate int_of capability fw_rev ≢ some allow
unfolding protocol_gate
protocol-not_allow int_of capability fw_rev h = ground (arith, h)

profile-not_allow :
    (capability fw_rev : String) (params : Params) (profile : Option DeviceProfile)
    → gate_of capability params fw_rev profile ≢ some allow
unfolding profile_safety_gate
profile-not_allow capability fw_rev params none h = cc
profile-not_allow capability fw_rev params (some profile) h = ground (arith, h)

allow_iff :
    (a b : Option PolicyDecision)
    → a ≢ some allow
    → b ≢ some allow
    → (or_else a (or_else b allow) ≡ allow) ↔ ((a ≡ none) × (b ≡ none))
allow_iff none none p q = (λ h. (refl, refl), λ h. refl)
allow_iff none (some d) p q = (λ h. absurd (q (ap some h)), λ h. cc)
allow_iff (some d) b p q = (λ h. absurd (p (ap some h)), λ h. cc)

-- The policy allows a task exactly when the registry has its capability, its firmware is either not
-- given or compatible, and, where a profile is given, the firmware fits the profile, the parameters are in the
-- profile's limits and the profile has the capability.
pub decide_exact :
    (int_of : IntReader) (capability fw_rev : String) (params : Params)
    (profile : Option DeviceProfile)
    → (decide int_of capability fw_rev params profile ≡ allow)
      ↔ (ProtocolAllows int_of capability fw_rev × ProfileAllows capability fw_rev params profile)
unfolding decide
decide_exact int_of capability fw_rev params profile =
    let gates =
      allow_iff (protocol_gate int_of capability fw_rev) (gate_of capability params fw_rev profile)
        (protocol-not_allow int_of capability fw_rev)
        (profile-not_allow capability fw_rev params profile) in
    let protocol = protocol_iff int_of capability fw_rev in
    let safety = profile_iff capability fw_rev params profile in
    (
      λ h. (protocol.0 (gates.0 h).0, safety.0 (gates.0 h).1),
      λ h. gates.1 (protocol.1 h.0, safety.1 h.1),
    )
