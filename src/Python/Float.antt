-- ===== src/Python/Float.antt =====
-- `float` of a text, as exact numbers: the floor, and whether a fraction is left over. The rounding to
-- 53 bits is not modelled, and neither are blanks, underscores, exponents, infinity and NaN.
use Prim.Native.String.{String}
use apicrud.Prelude.{
  ℕ, zero, suc, Bool, true, false, not, ◌&&◌, ◌||◌, Option, none, some, List, [], ◌∷◌,
  if◌then◌else◌, ◌==◌, char_eq, text_eq, number_eq,
}
use apicrud.Prelude.Int.{ℤ, pos, negsuc}
use apicrud.Python.Number.{parse_digits}
use apicrud.Python.Text.{split}

-- the digits before or behind the point, of which there may be none
abbrev digits_of : String → Option ℕ
digits_of String.[] = some 0
digits_of (String.◌∷◌ c s) = parse_digits (String.◌∷◌ c s)

abbrev signed : (minus : Bool) → ℕ → (fraction : ℕ) → ℤ × Bool
signed false n zero = (pos n, false)
signed false n (suc f) = (pos n, true)
signed true zero zero = (pos 0, false)
signed true (suc n) zero = (negsuc n, false)
signed true n (suc f) = (negsuc n, true)

abbrev with_point : Bool → Option ℕ → Option ℕ → Option (ℤ × Bool)
with_point minus (some n) (some f) = some (signed minus n f)
with_point minus none f = none
with_point minus (some n) none = none

abbrev by_point : Bool → List String → Option (ℤ × Bool)
by_point minus [] = none
by_point minus (n ∷ []) = with_point minus (parse_digits n) (some 0)
by_point minus (n ∷ f ∷ []) =
    if n == "" && f == "" then none else with_point minus (digits_of n) (digits_of f)
by_point minus (n ∷ f ∷ x ∷ xs) = none

-- `none` is a ValueError
unfoldable pub parse_float : String → Option (ℤ × Bool)
parse_float String.[] = none
parse_float (String.◌∷◌ c s) =
    if c == "-"
    then by_point true (split "." s)
    else if c == "+"
    then by_point false (split "." s)
    else by_point false (split "." (String.◌∷◌ c s))

-- the number is greater than 0
abbrev pub is_positive : ℤ × Bool → Bool
is_positive (pos n, fraction) = not (n == 0) || fraction
is_positive (negsuc n, fraction) = false

abbrev pub is_zero : ℤ × Bool → Bool
is_zero (pos n, fraction) = n == 0 && not fraction
is_zero (negsuc n, fraction) = false
