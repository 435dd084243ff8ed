-- ===== src/Python/Scan.antt =====
-- re, character by character: the steps of a match with re.I, on the characters that are left.
use apicrud.Prelude.{
  ℕ, ◌+◌, Bool, true, false, not, ◌&&◌, Option, none, some, List, [], ◌∷◌, Char, code, leb,
  if◌then◌else◌, ◌==◌, number_eq,
}
use apicrud.Python.PySet.{contains}

-- c.lower(), for an ASCII character
unfoldable pub lower : Char → ℕ
lower c = if leb 65 (code c) && leb (code c) 90 then code c + 32 else code c

-- one step of a match on the lower-case text: what is left of it
abbrev pub step_if : Bool → List Char → Option (List Char)
step_if true s = some s
step_if false s = none

-- a character of a few
unfoldable pub one_of : List ℕ → List Char → Option (List Char)
one_of codes [] = none
one_of codes (c ∷ s) = step_if (contains (lower c) codes) s

infixl 5 ◌>>=◌
abbrev pub ◌>>=◌ : Option (List Char) → (List Char → Option (List Char)) → Option (List Char)
none >>= next = none
some s >>= next = next s

-- `.`, which is no newline
unfoldable pub any_char : List Char → Option (List Char)
any_char [] = none
any_char (c ∷ s) = step_if (not (code c == 10)) s
