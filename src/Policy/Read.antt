-- ===== src/Policy/Read.antt =====
-- How the text of a version is read.
use qwen.Prelude.{
  ℕ, ◌≡◌, refl, sym, ◌∙◌, ap, true, false, Option, List, [], ◌∷◌, ◌++◌, reverse, map, arith, All,
  All-append,
}
use mathlib.Core.List.{reverse-append, reverse-reverse}
use qwen.Prelude.Int.{ℤ, pos}
use qwen.Policy.Version.{
  is_space, strip_left, strip, is_v, is_digit, all_digits, digits_value, segment_value, split_dots,
  parse_cleaned, parse_version, is_empty,
}

-- The text of a version: its segments with dots between them.
abbrev pub join : List ℕ → List (List ℕ) → List ℕ
join seg [] = seg
join seg (next ∷ segs) = seg ++ b'.' ∷ join next segs

-- A segment of one digit or more.
abbrev pub IsNumber : List ℕ → Type 0
IsNumber seg = (all_digits seg ≡ true) × (is_empty seg ≡ false)

abbrev NoSpace : ℕ → Type 0
NoSpace c = is_space c ≡ false

digits-NoSpace : (seg : List ℕ) → all_digits seg ≡ true → All NoSpace seg
unfolding all_digits is_digit is_space
digits-NoSpace [] h = tt
digits-NoSpace (c ∷ cs) h = (ground arith, digits-NoSpace cs (ground arith))

join-NoSpace :
    (seg : List ℕ) (segs : List (List ℕ))
    → IsNumber seg
    → All IsNumber segs
    → All NoSpace (join seg segs)
join-NoSpace seg [] h k = digits-NoSpace seg h.0
join-NoSpace seg (next ∷ segs) h k =
    All-append NoSpace seg (b'.' ∷ join next segs) (digits-NoSpace seg h.0)
      (unfold is_space in refl, join-NoSpace next segs k.0 k.1)

strip_left-plain : (cs : List ℕ) → All NoSpace cs → strip_left is_space cs ≡ cs
unfolding strip_left
strip_left-plain [] h = refl
strip_left-plain (c ∷ cs) h = rw h.0 refl

All-reverse : (cs : List ℕ) → All NoSpace cs → All NoSpace (reverse cs)
All-reverse [] h = tt
All-reverse (c ∷ cs) h =
    rw (reverse-append (c ∷ []) cs)
      (All-append NoSpace (reverse cs) (c ∷ []) (All-reverse cs h.1) (h.0, tt))

strip-plain : (cs : List ℕ) → All NoSpace cs → strip cs ≡ cs
unfolding strip
strip-plain cs h =
    rw (strip_left-plain cs h, strip_left-plain (reverse cs) (All-reverse cs h))
      (reverse-reverse cs)

split_dots-digits :
    (seg rest : List ℕ)
    → all_digits seg ≡ true
    → split_dots (seg ++ b'.' ∷ rest) ≡ seg ∷ split_dots rest
unfolding split_dots all_digits is_digit
split_dots-digits [] rest h = refl
split_dots-digits (c ∷ cs) rest h = ground (arith, split_dots-digits cs rest)

split_dots-last : (seg : List ℕ) → all_digits seg ≡ true → split_dots seg ≡ seg ∷ []
unfolding split_dots all_digits is_digit
split_dots-last [] h = refl
split_dots-last (c ∷ cs) h = ground (arith, split_dots-last cs)

split_dots-join :
    (seg : List ℕ) (segs : List (List ℕ))
    → IsNumber seg
    → All IsNumber segs
    → split_dots (join seg segs) ≡ seg ∷ segs
split_dots-join seg [] h k = split_dots-last seg h.0
split_dots-join seg (next ∷ segs) h k =
    split_dots-digits seg (join next segs) h.0
    ∙ ap (λ rest. seg ∷ rest) (split_dots-join next segs k.0 k.1)

abbrev pub numbers : List (List ℕ) → List ℤ
numbers segs = map (λ seg. pos (digits_value 0 seg)) segs

segment_value-numbers :
    (int_of : List ℕ → Option ℤ) (segs : List (List ℕ))
    → All IsNumber segs
    → map (segment_value int_of) segs ≡ numbers segs
unfolding segment_value
segment_value-numbers int_of [] h = refl
segment_value-numbers int_of (seg ∷ segs) h =
    rw (h.0.0, h.0.1, segment_value-numbers int_of segs h.1) refl

join-cons : (c : ℕ) (cs : List ℕ) (segs : List (List ℕ)) → join (c ∷ cs) segs ≡ c ∷ join cs segs
join-cons c cs [] = refl
join-cons c cs (next ∷ segs) = refl

parse_cleaned-join :
    (int_of : List ℕ → Option ℤ) (seg : List ℕ) (segs : List (List ℕ))
    → IsNumber seg
    → All IsNumber segs
    → parse_cleaned int_of (join seg segs) ≡ numbers (seg ∷ segs)
unfolding parse_cleaned
parse_cleaned-join int_of [] segs h k = cc
parse_cleaned-join int_of (c ∷ cs) segs h k = rw (join-cons c cs segs) (
    ap (map (segment_value int_of))
      (ap split_dots (sym (join-cons c cs segs)) ∙ split_dots-join (c ∷ cs) segs h k)
    ∙ segment_value-numbers int_of ((c ∷ cs) ∷ segs) (h, k))

strip_left-digit :
    (seg : List ℕ) (segs : List (List ℕ))
    → IsNumber seg
    → strip_left is_v (join seg segs) ≡ join seg segs
unfolding strip_left all_digits is_digit
strip_left-digit [] segs h = cc
strip_left-digit (c ∷ cs) segs h = rw (join-cons c cs segs) (ground (arith, h.0))

-- A version that is written as `v` and numbers with dots between them is read back as these numbers,
-- whatever `int` makes of other texts.
pub parse_version-join :
    (int_of : List ℕ → Option ℤ) (seg : List ℕ) (segs : List (List ℕ))
    → IsNumber seg
    → All IsNumber segs
    → parse_version int_of (b'v' ∷ join seg segs) ≡ numbers (seg ∷ segs)
unfolding parse_version strip_left
parse_version-join int_of seg segs h k =
    rw
      (
        strip-plain (b'v' ∷ join seg segs) (unfold is_space in refl, join-NoSpace seg segs h k),
        strip_left-digit seg segs h,
      )
      (parse_cleaned-join int_of seg segs h k)
