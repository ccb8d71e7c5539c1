-- ===== src/Families/Granted.antt =====
-- What the approvals and revocations of a device's families allow.
use qwen.Prelude.{
  ℕ, ◌≡◌, refl, sym, ap, subst, ◌∙◌, String, Bool, true, false, ◌&&◌, ◌||◌, not, false≢true, Option,
  none, some, List, [], ◌∷◌, inl, inr, arith, if◌then◌else◌, str_eq, eq_iff, Bool-cases,
  Option-cases, map,
}
use qwen.Prelude.Dict.{Dict, member, get}
use qwen.Families.{
  FamilyApproval, is_row, get_family_approval, upsert, approve_family, revoke_family, approval_of,
  revoked_of, is_approved_row, is_family_approved, family_requires_approval, family_is_active,
  gated_families, gated_allowlists, family_allowlists, Refusal, not_in_family, not_approved,
  not_active, is_listed, validate_family_capability,
}

pub data Action : Type 0 where
  approves : String → String → String → ℕ → String → Action
  revokes : String → String → String → Action

abbrev pub act : Action → List FamilyApproval → List FamilyApproval
act (approves d f by evidence now) rows = (approve_family d f by evidence now rows).0
act (revokes d f now) rows = (revoke_family d f now rows).0

pub run : List Action → List FamilyApproval → List FamilyApproval
run [] rows = rows
run (action ∷ actions) rows = run actions (act action rows)

-- What an action says of a device and a family, where `before` was said before.
abbrev pub decide : String → String → Action → Bool → Bool
decide d f (approves e g by evidence now) before =
    if (if str_eq e d then str_eq g f else false) then true else before
decide d f (revokes e g now) before =
    if (if str_eq e d then str_eq g f else false) then false else before

-- What the last action on a device and a family says.
pub granted : String → String → List Action → Bool → Bool
granted d f [] before = before
granted d f (action ∷ actions) before = granted d f actions (decide d f action before)

get-upsert :
    (d f : String) (new : FamilyApproval) (rows : List FamilyApproval)
    → get_family_approval d f (upsert new rows)
      ≡ (if is_row d f new then some new else get_family_approval d f rows)
unfolding get_family_approval upsert
get-upsert d f new [] = refl
get-upsert d f new (row ∷ rows) = ground (
  arith,
  get-upsert d f new rows,
  eq_iff row.device_id new.device_id,
  eq_iff row.family new.family,
  eq_iff row.device_id d,
  eq_iff row.family f,
  eq_iff new.device_id d,
  eq_iff new.family f,
)

still_missing :
    (d f e g : String) (rows : List FamilyApproval)
    → get_family_approval e g rows ≡ none
    → is_approved_row (get_family_approval d f rows) ≡ (
        if (if str_eq e d then str_eq g f else false)
        then false
        else is_approved_row (get_family_approval d f rows))
still_missing d f e g rows missing = elim (Bool-cases (if str_eq e d then str_eq g f else false)) [
  | inl same ↦
      let of_device : e ≡ d = ground (arith, same, eq_iff e d) in
      let of_family : g ≡ f = ground (arith, same, eq_iff g f) in
      rw (same, ← of_device, ← of_family, missing) refl
  | inr other ↦ rw other refl
]

revoke_missing :
    (d f now : String) (rows : List FamilyApproval)
    → get_family_approval d f rows ≡ none
    → (revoke_family d f now rows).0 ≡ rows
unfolding revoke_family
revoke_missing d f now rows h = rw (revoke_family, h) refl

revoke_there :
    (d f now : String) (row : FamilyApproval) (rows : List FamilyApproval)
    → get_family_approval d f rows ≡ some row
    → (revoke_family d f now rows).0 ≡ upsert (revoked_of d f now row) rows
unfolding revoke_family
revoke_there d f now row rows h = rw (revoke_family, h) refl

act-approved :
    (d f : String) (action : Action) (rows : List FamilyApproval)
    → is_family_approved d f (act action rows) ≡ decide d f action (is_family_approved d f rows)
unfolding is_family_approved approve_family
act-approved d f (approves e g by evidence now) rows =
    ground (arith, get-upsert d f (approval_of e g by evidence now) rows)
act-approved d f (revokes e g now) rows = elim (Option-cases (get_family_approval e g rows)) [
  | inl missing ↦ rw (revoke_missing e g now rows missing) (still_missing d f e g rows missing)
  | inr (row, there) ↦
      rw (revoke_there e g now row rows there)
        (ground (arith, get-upsert d f (revoked_of e g now row) rows))
]

run-approved :
    (d f : String) (actions : List Action) (rows : List FamilyApproval)
    → is_family_approved d f (run actions rows) ≡ granted d f actions (is_family_approved d f rows)
unfolding run granted
run-approved d f [] rows = refl
run-approved d f (action ∷ actions) rows =
    run-approved d f actions (act action rows)
    ∙ ap (granted d f actions) (act-approved d f action rows)

gated_key :
    (f : String) (m : Dict (List String)) (allowed : List String)
    → get f m ≡ some allowed
    → member f (map (λ p. p.0) m) ≡ true
unfolding get member
gated_key f [] allowed h = absurd (let e : none ≡ some allowed = h in cc)
gated_key f ((g, l) ∷ m) allowed h = ground (arith, gated_key f m allowed)

gated-motion : (f : String) → member f gated_families ≡ true → str_eq f "motion" ≡ false
unfolding member
gated-motion f h = elim (Bool-cases (str_eq f "motion")) [
  | inl e ↦ absurd (
      false≢true
        (subst (λ (g : String). member g gated_families ≡ true) ((eq_iff f "motion").0 e) h))
  | inr e ↦ e
]

ungated :
    (f : String) (allowed : List String)
    → get f family_allowlists ≡ some allowed
    → member f gated_families ≡ false
    → str_eq f "motion" ≡ true
unfolding get
ungated f allowed h off = elim (Bool-cases (str_eq "motion" f)) [
  | inl e ↦ (eq_iff f "motion").1 (sym ((eq_iff "motion" f).0 e))
  | inr e ↦
      let rest : get f gated_allowlists ≡ some allowed = rw e at h in
      absurd (false≢true (sym off ∙ gated_key f gated_allowlists allowed rest))
]

abbrev pub is_allowed : Option Refusal → Bool
is_allowed none = true
is_allowed (some refusal) = false

-- The three tests, where a family that is listed is either gated or motion.
allowed_lem :
    (listed gated approved : Bool)
    → is_allowed (
        if not listed
        then some not_in_family
        else if gated
        then (if not approved then some not_approved else none)
        else if not (not gated)
        then some not_active
        else none)
      ≡ (listed && (not gated || approved))
allowed_lem false gated approved = refl
allowed_lem true true true = refl
allowed_lem true true false = refl
allowed_lem true false true = refl
allowed_lem true false false = refl

active-motion : (f : String) → family_is_active f ≡ str_eq f "motion"
unfolding family_is_active member
active-motion f = ground (arith, eq_iff f "motion", eq_iff "motion" f)

motion-gated :
    (f : String) (allowed : List String)
    → get f family_allowlists ≡ some allowed
    → str_eq f "motion" ≡ not (family_requires_approval f)
unfolding family_requires_approval
motion-gated f allowed h = elim (Bool-cases (member f gated_families)) [
  | inl gated ↦ rw gated (gated-motion f gated)
  | inr free ↦ rw free (ungated f allowed h free)
]

listed_lem :
    (d f capability : String) (rows : List FamilyApproval) (allowed : List String)
    → get f family_allowlists ≡ some allowed
    → is_allowed (validate_family_capability d f capability rows)
      ≡ (member capability allowed && (str_eq f "motion" || is_family_approved d f rows))
unfolding validate_family_capability
listed_lem d f capability rows allowed h =
    rw (validate_family_capability, h, active-motion f, motion-gated f allowed h)
      (allowed_lem (member capability allowed) (family_requires_approval f)
        (is_family_approved d f rows))

-- After any approvals and revocations of an empty table, a capability is allowed for a device exactly
-- when its family lists it, and the family is motion or the last action on the device and the family
-- was an approval.
pub validate_exact :
    (d f capability : String) (actions : List Action)
    → is_allowed (validate_family_capability d f capability (run actions [])) ≡ (
        is_listed capability (get f family_allowlists)
        && (str_eq f "motion" || granted d f actions false))
unfolding validate_family_capability is_family_approved get_family_approval
validate_exact d f capability actions = elim (Option-cases (get f family_allowlists)) [
  | inl e ↦ rw (validate_family_capability, e) refl
  | inr (allowed, e) ↦
      listed_lem d f capability (run actions []) allowed e
      ∙ rw (e, run-approved d f actions []) refl
]
