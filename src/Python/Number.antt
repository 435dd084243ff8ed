-- ===== src/Python/Number.antt =====
-- `%d`, and int(text, 0).
use Prim.Native.String.{String, char_at}
use apicrud.Prelude.{
  ℕ, zero, suc, ◌+◌, ◌*◌, ◌/◌, ◌%◌, ◌-◌, ◌&&◌, Option, none, some, ◌⧺◌, Char, code, ltb, leb,
  if◌then◌else◌, ◌==◌, char_eq, text_eq,
}
use apicrud.Prelude.Int.{ℤ, pos, negsuc}

abbrev digit : ℕ → String
digit d = String.◌∷◌ (char_at "0123456789" (d % 10)) ""

-- each round divides the number by ten, so that the number bounds the rounds
digits : ℕ → ℕ → String
digits zero n = digit n
digits (suc fuel) n =
    let rest = digits fuel (n / 10) in if ltb n 10 then digit n else rest ⧺ digit n

unfoldable pub decimal : ℕ → String
unfolding digits
decimal n = digits n n

-- `str` of an int
unfoldable pub show_int : ℤ → String
show_int (pos n) = decimal n
show_int (negsuc n) = "-" ⧺ decimal (suc n)

-- the value of a digit in bases up to 16
abbrev digit_value : Char → Option ℕ
digit_value c =
    if leb 48 (code c) && leb (code c) 57
    then some (code c - 48)
    else if leb 65 (code c) && leb (code c) 70
    then some (code c - 55)
    else if leb 97 (code c) && leb (code c) 102
    then some (code c - 87)
    else none

scan_base : ℕ → String → ℕ → Option ℕ
scan_base base String.[] n = some n
scan_base base (String.◌∷◌ c s) n = elim (digit_value c) [
  | none ↦ none
  | some d ↦ let rest = scan_base base s (n * base + d) in if ltb d base then rest else none
]

-- a number in one base, with at least one digit
abbrev number_in : ℕ → String → Option ℕ
number_in base String.[] = none
number_in base (String.◌∷◌ c s) = scan_base base (String.◌∷◌ c s) 0

-- a leading zero is followed by the letter of a base, or by zeros only
abbrev after_zero : String → Option ℕ
after_zero String.[] = some 0
after_zero (String.◌∷◌ c s) =
    if c == "x"
    then number_in 16 s
    else if c == "X"
    then number_in 16 s
    else if c == "o"
    then number_in 8 s
    else if c == "O"
    then number_in 8 s
    else if c == "b"
    then number_in 2 s
    else if c == "B"
    then number_in 2 s
    else number_in 1 (String.◌∷◌ c s)

unsigned : String → Option ℕ
unfolding scan_base
unsigned String.[] = none
unsigned (String.◌∷◌ c s) = if c == "0" then after_zero s else number_in 10 (String.◌∷◌ c s)

abbrev negative : Option ℕ → Option ℤ
negative none = none
negative (some zero) = some (pos 0)
negative (some (suc n)) = some (negsuc n)

abbrev positive : Option ℕ → Option ℤ
positive none = none
positive (some n) = some (pos n)

-- int(text, 0), for texts without blanks and underscores: `none` is a ValueError
unfoldable pub parse_int : String → Option ℤ
unfolding unsigned
parse_int String.[] = none
parse_int (String.◌∷◌ c s) =
    if c == "-"
    then negative (unsigned s)
    else if c == "+"
    then positive (unsigned s)
    else positive (unsigned (String.◌∷◌ c s))

-- int(text), likewise
unfoldable pub parse_decimal : String → Option ℤ
unfolding scan_base
parse_decimal String.[] = none
parse_decimal (String.◌∷◌ c s) =
    if c == "-"
    then negative (number_in 10 s)
    else if c == "+"
    then positive (number_in 10 s)
    else positive (number_in 10 (String.◌∷◌ c s))

-- the decimal digits of an unsigned number, of which there is at least one
unfoldable pub parse_digits : String → Option ℕ
unfolding scan_base
parse_digits s = number_in 10 s
