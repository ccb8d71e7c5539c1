-- ===== src/Families.antt =====
-- device_gateway/family_approval_store.py and the tables of protocol_families.py: the protocol families
-- that an administrator approves for a device. The SQLite table is a list of rows, of which no two have
-- the same device and family; the evidence is a number, and `now` is the clock's text.
pub mod Granted
mod Tests
use qwen.Prelude.{
  ℕ, String, Bool, true, false, ◌&&◌, not, Option, none, some, List, [], ◌∷◌, if◌then◌else◌, str_eq,
}
use qwen.Prelude.Dict.{Dict, member, get}

-- `FAMILY_ALLOWLISTS` of the families that need an approval.
abbrev pub gated_allowlists : Dict (List String)
gated_allowlists =
    ("display", "show_image" ∷ "show_text" ∷ "clear_screen" ∷ [])
    ∷ ("audio", "play_audio" ∷ "stop_audio" ∷ "set_volume" ∷ [])
    ∷ ("speech", "tts_speak" ∷ "voice_clone" ∷ [])
    ∷ ("ocr", "capture_text" ∷ "read_display" ∷ [])
    ∷ ("camera", "capture_frame" ∷ "stream_start" ∷ "stream_stop" ∷ [])
    ∷ ("perception", "wifi_csi_sample" ∷ "presence_detect" ∷ [])
    ∷ []

-- `FAMILY_ALLOWLISTS`
abbrev pub family_allowlists : Dict (List String)
family_allowlists =
    (
      "motion",
      "run_path" ∷ "write_text" ∷ "draw_generated" ∷ "home" ∷ "pause" ∷ "resume" ∷ "stop"
          ∷ "get_device_info" ∷ [],
    )
    ∷ gated_allowlists

-- `ACTIVE_FAMILIES` and `GATED_FAMILIES`
abbrev pub active_families : List String
active_families = "motion" ∷ []

abbrev pub gated_families : List String
gated_families = "display" ∷ "audio" ∷ "speech" ∷ "ocr" ∷ "camera" ∷ "perception" ∷ []

pub record FamilyApproval : Type 0 where
  pub device_id : String
  pub family : String
  pub status : String
  pub approved_by : String
  pub approved_at : String
  pub revoked_at : Option String
  pub evidence : ℕ

abbrev pub is_row : String → String → FamilyApproval → Bool
is_row d f row = if str_eq row.device_id d then str_eq row.family f else false

-- `SELECT ... WHERE device_id=? AND family=?`
unfoldable pub get_family_approval : String → String → List FamilyApproval → Option FamilyApproval
get_family_approval d f [] = none
get_family_approval d f (row ∷ rows) =
    if is_row d f row then some row else get_family_approval d f rows

-- `INSERT ... ON CONFLICT(device_id, family) DO UPDATE`
unfoldable pub upsert : FamilyApproval → List FamilyApproval → List FamilyApproval
upsert new [] = new ∷ []
upsert new (row ∷ rows) =
    let rest = upsert new rows in
    if is_row new.device_id new.family row then new ∷ rows else row ∷ rest

abbrev pub approval_of : String → String → String → ℕ → String → FamilyApproval
approval_of d f by evidence now = record {
  device_id = d;
  family = f;
  status = "approved";
  approved_by = by;
  approved_at = now;
  revoked_at = none;
  evidence = evidence;
}

unfoldable pub approve_family :
    String
    → String
    → String
    → ℕ
    → String
    → List FamilyApproval
    → List FamilyApproval × FamilyApproval
approve_family d f by evidence now rows =
    let approval = approval_of d f by evidence now in (upsert approval rows, approval)

abbrev pub revoked_of : String → String → String → FamilyApproval → FamilyApproval
revoked_of d f now row = record row {
  device_id = d;
  family = f;
  status = "revoked";
  revoked_at = some now;
}

-- The `UPDATE` writes the row that the `SELECT` has read; `revoked_by` is not stored.
unfoldable pub revoke_family :
    String → String → String → List FamilyApproval → List FamilyApproval × Option FamilyApproval
revoke_family d f now rows = elim (get_family_approval d f rows) [
  | none ↦ (rows, none)
  | some row ↦ (upsert (revoked_of d f now row) rows, some (revoked_of d f now row))
]

abbrev pub is_approved_row : Option FamilyApproval → Bool
is_approved_row none = false
is_approved_row (some row) = str_eq row.status "approved"

unfoldable pub is_family_approved : String → String → List FamilyApproval → Bool
is_family_approved d f rows = is_approved_row (get_family_approval d f rows)

unfoldable pub family_requires_approval : String → Bool
family_requires_approval f = member f gated_families

unfoldable pub family_is_active : String → Bool
family_is_active f = member f active_families

-- The three error texts of `validate_family_capability`.
pub data Refusal : Type 0 where
  not_in_family not_approved not_active : Refusal

abbrev pub is_listed : String → Option (List String) → Bool
is_listed capability none = false
is_listed capability (some allowed) = member capability allowed

-- `none` where the capability is allowed. No family has its approval in the code.
unfoldable pub validate_family_capability :
    String → String → String → List FamilyApproval → Option Refusal
validate_family_capability d f capability rows =
    if not (is_listed capability (get f family_allowlists))
    then some not_in_family
    else if family_requires_approval f
    then (if not (is_family_approved d f rows) then some not_approved else none)
    else if not (family_is_active f)
    then some not_active
    else none
