-- ===== src/Prelude/Sort.antt =====
-- Python's `sorted` with a key: a stable sort, here by insertion.
use Prim.Native.Nat.{ℕ, suc}
use mathlib.Core.Path.{◌≡◌, refl, ◌∙◌, ap}
use mathlib.Core.Bool.{Bool, true, false, ◌&&◌, ◌||◌}
use mathlib.Core.List.{List, [], ◌∷◌, ◌++◌}
use native.Mathlib.Omega.{arith}
use qwen.Prelude.Tests.{if◌then◌else◌, ltb, ◌==◌}
use qwen.Prelude.Lists.{length, All}

-- Order of two texts by their code points, as Python compares `str`.
unfoldable pub text_leb : List ℕ → List ℕ → Bool
text_leb [] ys = true
text_leb (x ∷ xs) [] = false
text_leb (x ∷ xs) (y ∷ ys) = ltb x y || (x == y && text_leb xs ys)

pub text_leb_refl : (xs : List ℕ) → text_leb xs xs ≡ true
unfolding text_leb
text_leb_refl [] = refl
text_leb_refl (x ∷ xs) = ground (arith, text_leb_refl xs)

pub text_leb_trans :
    (xs ys zs : List ℕ) → text_leb xs ys ≡ true → text_leb ys zs ≡ true → text_leb xs zs ≡ true
unfolding text_leb
text_leb_trans [] ys zs h k = refl
text_leb_trans (x ∷ xs) [] zs h k = cc
text_leb_trans (x ∷ xs) (y ∷ ys) [] h k = cc
text_leb_trans (x ∷ xs) (y ∷ ys) (z ∷ zs) h k = ground (arith, text_leb_trans xs ys zs)

module _ {ℓ} {A : Type ℓ} (leq : A → A → Bool) where
  unfoldable pub insert : A → List A → List A
  insert x [] = x ∷ []
  insert x (y ∷ ys) = if leq x y then x ∷ y ∷ ys else y ∷ insert x ys

  unfoldable pub sort : List A → List A
  unfolding insert
  sort [] = []
  sort (x ∷ xs) = insert x (sort xs)

module _ {ℓ} {A : Type ℓ} (leq : A → A → Bool) where
  length-insert : (x : A) (ys : List A) → length (insert leq x ys) ≡ suc (length ys)
  unfolding insert
  length-insert x [] = refl
  length-insert x (y ∷ ys) = ground (arith, length-insert x ys)

  pub length-sort : (xs : List A) → length (sort leq xs) ≡ length xs
  unfolding sort
  length-sort [] = refl
  length-sort (x ∷ xs) = length-insert x (sort leq xs) ∙ ap suc (length-sort xs)

  insert-append :
      (x z : A) (ys : List A)
      → leq x z ≡ true
      → insert leq x (ys ++ z ∷ []) ≡ insert leq x ys ++ z ∷ []
  unfolding insert
  insert-append x z [] h = ground (arith, h)
  insert-append x z (y ∷ ys) h = ground (arith, insert-append x z ys h)

  -- What is not below anything before it stays last.
  pub sort-append :
      (xs : List A) (z : A)
      → All (λ x. leq x z ≡ true) xs
      → sort leq (xs ++ z ∷ []) ≡ sort leq xs ++ z ∷ []
  unfolding sort
  sort-append [] z h = unfold insert in refl
  sort-append (x ∷ xs) z h =
      ap (insert leq x) (sort-append xs z h.1) ∙ insert-append x z (sort leq xs) h.0

module _ {ℓ κ} {A : Type ℓ} (P : A → Type κ) (leq : A → A → Bool) where
  All-insert : (x : A) (ys : List A) → P x → All P ys → All P (insert leq x ys)
  unfolding insert
  All-insert x [] px h = (px, tt)
  All-insert x (y ∷ ys) px h =
      elim (leq x y) as (λ b. All P (if b then x ∷ y ∷ ys else y ∷ insert leq x ys)) [
        | true ↦ (px, h)
        | false ↦ (h.0, All-insert x ys px h.1)
      ]

  pub All-sort : (xs : List A) → All P xs → All P (sort leq xs)
  unfolding sort
  All-sort [] h = tt
  All-sort (x ∷ xs) h = All-insert x (sort leq xs) h.0 (All-sort xs h.1)
