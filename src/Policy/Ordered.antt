-- ===== src/Policy/Ordered.antt =====
-- Which firmware versions are compatible.
use qwen.Prelude.{
  sym, eq_iff, Bool-cases, inl, inr, ℕ, ◌≡◌, refl, ap, ◌∙◌, String, false, List, [], ◌∷◌, arith,
  leb, str_eq, if◌then◌else◌,
}
use qwen.Prelude.Int.{pos}
use qwen.Policy.{IntReader, firmware_status, compatible, outdated, min_firmware}
use qwen.Policy.Version.{codes, digits_value, is_digit, is_space, parse_version, version_geq}
use qwen.Policy.Read.{join, IsNumber, parse_version-join}

codes-named : (fw : String) (c : ℕ) (cs : List ℕ) → codes fw ≡ c ∷ cs → str_eq fw "" ≡ false
codes-named fw c cs h = elim (Bool-cases (str_eq fw "")) [
  | inl e ↦ absurd (let empty : [] ≡ c ∷ cs = sym (ap codes ((eq_iff _ _).0 e)) ∙ h in cc)
  | inr e ↦ e
]

least :
    (int_of : IntReader) → parse_version int_of (codes min_firmware) ≡ pos 1 ∷ pos 0 ∷ pos 0 ∷ []
unfolding parse_version is_space is_digit
least int_of = refl

geq-least :
    (a b c : ℕ) → version_geq (pos a ∷ pos b ∷ pos c ∷ []) (pos 1 ∷ pos 0 ∷ pos 0 ∷ []) ≡ leb 1 a
unfolding version_geq
geq-least a b c = ground arith

-- A firmware whose revision is written as `v` and three numbers with dots between them is compatible
-- exactly where the first number is at least 1, and outdated otherwise, whatever `int` makes of other texts.
pub firmware_status-join :
    (int_of : IntReader) (fw : String) (major minor patch : List ℕ)
    → codes fw ≡ b'v' ∷ join major (minor ∷ patch ∷ [])
    → IsNumber major
    → IsNumber minor
    → IsNumber patch
    → firmware_status int_of fw ≡ (if leb 1 (digits_value 0 major) then compatible else outdated)
unfolding firmware_status
firmware_status-join int_of fw major minor patch written h k l =
    let read =
      ap (parse_version int_of) written
      ∙ parse_version-join int_of major (minor ∷ patch ∷ []) h (k, (l, tt)) in
    rw
      (
        codes-named fw b'v' _ written,
        least int_of,
        read,
        geq-least (digits_value 0 major) (digits_value 0 minor) (digits_value 0 patch),
      )
      refl
