-- ===== src/Policy/Version.antt =====
-- device_gateway/_version_compare.py: a firmware version as a tuple of numbers, and Python's order of
-- tuples. A version is a list of code points. What Python's `int` reads from a segment that is not
-- all ASCII digits (a sign, an underscore, other digits) is an argument; `none` is its `ValueError`.
use qwen.Prelude.{
  ℕ, ◌+◌, ◌-◌, ◌*◌, String, Bool, true, false, Option, none, some, ◌&&◌, ◌||◌, not, List, [], ◌∷◌,
  reverse, map, leb, ◌==◌, if◌then◌else◌,
}
use qwen.Prelude.Int.{ℤ, pos, ltb_ℤ}
use Prim.Native.Char.{code}

abbrev pub codes : String → List ℕ
codes String.[] = []
codes (String.◌∷◌ c s) = code c ∷ codes s

-- The code points that `strip` takes off.
unfoldable pub is_space : ℕ → Bool
is_space c =
    (leb 9 c && leb c 13)
    || (leb 28 c && leb c 32)
    || c == 133
    || c == 160
    || c == 5760
    || (leb 8192 c && leb c 8202)
    || c == 8232
    || c == 8233
    || c == 8239
    || c == 8287
    || c == 12288

unfoldable pub strip_left : (ℕ → Bool) → List ℕ → List ℕ
strip_left drop_it [] = []
strip_left drop_it (c ∷ cs) = if drop_it c then strip_left drop_it cs else c ∷ cs

unfoldable pub strip : List ℕ → List ℕ
unfolding strip_left
strip cs = reverse (strip_left is_space (reverse (strip_left is_space cs)))

abbrev pub is_v : ℕ → Bool
is_v c = c == b'v' || c == b'V'

unfoldable pub is_digit : ℕ → Bool
is_digit c = leb b'0' c && leb c b'9'

unfoldable pub all_digits : List ℕ → Bool
all_digits [] = true
all_digits (c ∷ cs) = is_digit c && all_digits cs

unfoldable pub digits_value : ℕ → List ℕ → ℕ
digits_value acc [] = acc
digits_value acc (c ∷ cs) = digits_value (acc * 10 + (c - b'0')) cs

abbrev or_zero : Option ℤ → ℤ
or_zero none = pos 0
or_zero (some n) = n

abbrev pub is_empty : List ℕ → Bool
is_empty [] = true
is_empty (c ∷ cs) = false

-- `int(seg)`, or 0 where it is refused
unfoldable pub segment_value : (List ℕ → Option ℤ) → List ℕ → ℤ
unfolding all_digits digits_value
segment_value int_of seg =
    if all_digits seg && not (is_empty seg) then pos (digits_value 0 seg) else or_zero (int_of seg)

abbrev pub glue : ℕ → List (List ℕ) → List (List ℕ)
glue c [] = (c ∷ []) ∷ []
glue c (seg ∷ segs) = (c ∷ seg) ∷ segs

-- `split(".")`
unfoldable pub split_dots : List ℕ → List (List ℕ)
split_dots [] = [] ∷ []
split_dots (c ∷ cs) = let rest = split_dots cs in if c == b'.' then [] ∷ rest else glue c rest

unfoldable pub parse_cleaned : (List ℕ → Option ℤ) → List ℕ → List ℤ
unfolding split_dots segment_value
parse_cleaned int_of [] = pos 0 ∷ []
parse_cleaned int_of (c ∷ cs) = map (segment_value int_of) (split_dots (c ∷ cs))

unfoldable pub parse_version : (List ℕ → Option ℤ) → List ℕ → List ℤ
unfolding parse_cleaned strip
parse_version int_of s = parse_cleaned int_of (strip_left is_v (strip s))

-- `a >= b` on tuples
unfoldable pub version_geq : List ℤ → List ℤ → Bool
version_geq a [] = true
version_geq [] (y ∷ ys) = false
version_geq (x ∷ xs) (y ∷ ys) = ltb_ℤ y x || (not (ltb_ℤ x y) && version_geq xs ys)
