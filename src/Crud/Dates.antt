-- ===== src/Crud/Dates.antt =====
-- apicrud/basic_crud.py: BasicCRUD._fromdate.
use Prim.Native.String.{String}
use apicrud.Prelude.{
  Bool, true, false, ◌&&◌, ◌||◌, Option, none, some, List, [], ◌∷◌, ◌≡◌, arith, Char, code, ◌⧺◌,
  if◌then◌else◌, ◌==◌, text_eq, char_eq, leb, nat_eq,
}
use apicrud.Python.Text.{to_list, in_text}

abbrev between : Char → Char → Char → Bool
between low high c = leb (code low) (code c) && leb (code c) (code high)

-- (0[1-9])|(1[0-2])
abbrev is_month : Char → Char → Bool
is_month c d = (c == "0" && between "1" "9" d) || (c == "1" && between "0" "2" d)

-- [0-2][1-9]|3[0-1]
abbrev pub is_day : Char → Char → Bool
is_day c d = (between "0" "2" c && between "1" "9" d) || (c == "3" && between "0" "1" d)

-- `$`, which is also in front of a last line feed
abbrev at_end : List Char → Bool
at_end [] = true
at_end (c ∷ []) = nat_eq (code c) 10
at_end (c ∷ d ∷ rest) = false

-- re.match('^2[0-9]{3}-((0[1-9])|(1[0-2]))-([0-2][1-9]|3[0-1])$', …)
unfoldable pub is_short_date : List Char → Bool
is_short_date (a ∷ b ∷ c ∷ d ∷ e ∷ m ∷ n ∷ f ∷ g ∷ h ∷ rest) =
    a == "2"
    && between "0" "9" b
    && between "0" "9" c
    && between "0" "9" d
    && e == "-"
    && is_month m n
    && f == "-"
    && is_day g h
    && at_end rest
is_short_date other = false

unfoldable pub with_time : String → String
with_time date = if is_short_date (to_list date) then date ⧺ "T23:59:59Z" else date

abbrev pub or_try : Option String → Option String → Option String
or_try none second = second
or_try (some d) second = some d

-- `strptime fractional text` is datetime.strptime with or without `.%f` in the format; `none` is a
-- ValueError
unfoldable pub from_date : (Bool → String → Option String) → String → Option String
from_date strptime date = or_try (strptime true (with_time date)) (strptime false (with_time date))

tenth_not_day : (g : Char) → (g == "3") ≡ false → is_day g "0" ≡ false
tenth_not_day g h = ground (arith, h)

tenth_not_short :
    (a b c d e m n f g : Char)
    → (g == "3") ≡ false
    → is_short_date (a ∷ b ∷ c ∷ d ∷ e ∷ m ∷ n ∷ f ∷ g ∷ "0" ∷ []) ≡ false
unfolding is_short_date
tenth_not_short a b c d e m n f g h = ground (arith, tenth_not_day g h)

-- A date without a time whose day is 10 or 20 is refused, although it is a date: the pattern for a
-- date without a time does not match it, so it is read as a date with a time.
pub from_date_tenth :
    (strptime : Bool → String → Option String) (date : String) (a b c d e m n f g : Char)
    → to_list date ≡ a ∷ b ∷ c ∷ d ∷ e ∷ m ∷ n ∷ f ∷ g ∷ "0" ∷ []
    → (g == "3") ≡ false
    → ((fractional : Bool) (t : String) → in_text "T" t ≡ false → strptime fractional t ≡ none)
    → in_text "T" date ≡ false
    → from_date strptime date ≡ none
unfolding from_date with_time
from_date_tenth strptime date a b c d e m n f g chars not_thirty needs_time no_time = rw chars (
    rw (tenth_not_short a b c d e m n f g not_thirty)
      (rw (needs_time true date no_time, needs_time false date no_time)))
