-- ===== src/Prelude/Dict.antt =====
-- Python's `dict` with string keys, in its order of insertion: a write to a key that is there keeps
-- the key's place, and a new key goes to the end.
use Prim.Native.Nat.{suc, ◌≤◌}
use Prim.Native.String.{String}
use mathlib.Core.Path.{◌≡◌, refl}
use mathlib.Core.Bool.{Bool, true, false}
use mathlib.Core.Option.{Option, none, some}
use mathlib.Core.List.{List, [], ◌∷◌}
use native.Mathlib.Omega.{arith}
use text.Mathlib.Text.{◌==◌ as str_eq}
use text.Mathlib.TextEquality.{eq_iff}
use text.Mathlib.TextPositions.{eq_refl}
use qwen.Prelude.Tests.{if◌then◌else◌, is_some}
use qwen.Prelude.Lists.{length}

-- `in` for a collection of texts
unfoldable pub member : String → List String → Bool
member k [] = false
member k (j ∷ js) = if str_eq j k then true else member k js

abbrev pub Dict {ℓ} : Type ℓ → Type ℓ
Dict V = List (String × V)

module _ {ℓ} {V : Type ℓ} where
  unfoldable pub get : String → Dict V → Option V
  get k [] = none
  get k ((j, v) ∷ m) = if str_eq j k then some v else get k m

  unfoldable pub put : String → V → Dict V → Dict V
  put k v [] = (k, v) ∷ []
  put k v ((j, w) ∷ m) = if str_eq j k then (j, v) ∷ m else (j, w) ∷ put k v m

  -- `pop` of a key, or `del`
  unfoldable pub remove : String → Dict V → Dict V
  remove k [] = []
  remove k ((j, v) ∷ m) = let rest = remove k m in if str_eq j k then rest else (j, v) ∷ rest

  -- `get` with a default
  abbrev pub get_or : String → Dict V → V → V
  get_or k m d = elim (get k m) [ none ↦ d | some v ↦ v ]

  abbrev pub has : String → Dict V → Bool
  has k m = is_some (get k m)

module _ {ℓ} {V : Type ℓ} where
  pub get-put :
      (k j : String) (v : V) (m : Dict V)
      → get j (put k v m) ≡ (if str_eq k j then some v else get j m)
  unfolding get put
  get-put k j v [] = refl
  get-put k j v ((i, w) ∷ m) = ground (arith, eq_iff k j, eq_iff i k, eq_iff i j, get-put k j v m)

  pub get-remove :
      (k j : String) (m : Dict V) → get j (remove k m) ≡ (if str_eq k j then none else get j m)
  unfolding get remove
  get-remove k j [] = ground arith
  get-remove k j ((i, w) ∷ m) = ground (arith, eq_iff k j, eq_iff i k, eq_iff i j, get-remove k j m)

  pub get-put_self : (k : String) (v : V) (m : Dict V) → get k (put k v m) ≡ some v
  get-put_self k v m = simp (get-put, eq_refl)

  pub get-put_ne :
      (k j : String) (v : V) (m : Dict V) → str_eq k j ≡ false → get j (put k v m) ≡ get j m
  get-put_ne k j v m h = ground (arith, get-put k j v m)

  pub get_or-put :
      (k j : String) (v d : V) (m : Dict V)
      → get_or j (put k v m) d ≡ (if str_eq k j then v else get_or j m d)
  get_or-put k j v d m = ground (arith, get-put k j v m)

  pub get_or-put_self : (k : String) (v d : V) (m : Dict V) → get_or k (put k v m) d ≡ v
  get_or-put_self k v d m = ground (arith, get-put_self k v m)

  pub get_or-remove :
      (k j : String) (d : V) (m : Dict V)
      → get_or j (remove k m) d ≡ (if str_eq k j then d else get_or j m d)
  get_or-remove k j d m = ground (arith, get-remove k j m)

  -- A write adds an entry exactly when the key is new.
  pub length-put :
      (k : String) (v : V) (m : Dict V)
      → length (put k v m) ≡ (if has k m then length m else suc (length m))
  unfolding get put
  length-put k v [] = refl
  length-put k v ((i, w) ∷ m) = ground (arith, length-put k v m)

  pub length-remove-le : (k : String) (m : Dict V) → length (remove k m) ≤ length m
  unfolding remove
  length-remove-le k [] = omega arith
  length-remove-le k ((i, w) ∷ m) = ground (arith, length-remove-le k m)

pub ruleset dict_laws = (get-put, get-remove)
