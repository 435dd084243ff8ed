-- ===== src/Utils.antt =====
-- apicrud/utils.py: gen_id and identity_normalize. The proofs are in the modules below.
pub mod Identity
pub mod Ids
use Prim.Native.String.{String, char_at}
use apicrud.Prelude.{
  ℕ, zero, suc, ◌+◌, ◌-◌, ◌*◌, ◌/◌, ◌%◌, Bool, true, false, not, ◌&&◌, Option, none, some, ◌⧺◌,
  List, [], ◌∷◌, ◌++◌, Char, code, leb, length, if◌then◌else◌, ◌==◌, number_eq, text_eq,
}
use apicrud.Python.Scan.{one_of, any_char, ◌>>=◌}
use apicrud.Python.Text.{split, replace, to_list, same_char}

-- c.lower(), for an ASCII character
unfoldable pub lower_char : Char → Char
lower_char c =
    if leb 65 (code c) && leb (code c) 90
    then char_at "abcdefghijklmnopqrstuvwxyz" (code c - 65)
    else c

-- text.lower(), for an ASCII text
unfoldable pub lower_text : String → String
lower_text String.[] = ""
lower_text (String.◌∷◌ c s) = String.◌∷◌ (lower_char c) (lower_text s)

-- the end of the text, or a newline before it
abbrev pub at_end : Option (List Char) → Bool
at_end none = false
at_end (some []) = true
at_end (some (c ∷ [])) = code c == 10
at_end (some (c ∷ d ∷ s)) = false

-- @gmail.com$, with re.I: the dot is any character
unfoldable pub at_gmail : List Char → Bool
at_gmail s = at_end (
    one_of (64 ∷ []) s
    >>= one_of (103 ∷ [])
    >>= one_of (109 ∷ [])
    >>= one_of (97 ∷ [])
    >>= one_of (105 ∷ [])
    >>= one_of (108 ∷ [])
    >>= any_char
    >>= one_of (99 ∷ [])
    >>= one_of (111 ∷ [])
    >>= one_of (109 ∷ []))

-- .*@gmail.com$
unfoldable pub is_gmail : List Char → Bool
is_gmail [] = false
is_gmail (c ∷ s) = if at_gmail (c ∷ s) then true else not (code c == 10) && is_gmail s

abbrev pub first_of : List String → String
first_of [] = ""
first_of (x ∷ xs) = x

-- '%s@gmail.com' % identity.split('@')[0].replace('.', '')
unfoldable pub without_dots : String → String
without_dots identity = replace "." "" (first_of (split "@" identity)) ⧺ "@gmail.com"

-- user, domain = identity.split('@'), and ValueError
unfoldable pub joined_lower : String → List String → String
joined_lower identity [] = lower_text identity
joined_lower identity (user ∷ []) = lower_text identity
joined_lower identity (user ∷ domain ∷ []) = lower_text (first_of (split "+" user) ⧺ ("@" ⧺ domain))
joined_lower identity (user ∷ domain ∷ more ∷ parts) = lower_text identity

unfoldable pub untagged : String → String
untagged identity = joined_lower identity (split "@" identity)

-- identity_normalize, for an ASCII text
unfoldable pub identity_normalize : String → Option String
identity_normalize identity =
    if identity == ""
    then none
    else some (untagged (if is_gmail (to_list identity) then without_dots identity else identity))

-- chars[i]
abbrev pub char_of : List Char → ℕ → Option Char
char_of [] i = none
char_of (c ∷ chars) zero = some c
char_of (c ∷ chars) (suc i) = char_of chars i

-- s.lstrip(c)
unfoldable pub lstrip_char : Char → List Char → List Char
lstrip_char c [] = []
lstrip_char c (d ∷ s) = let rest = lstrip_char c s in if same_char d c then rest else d ∷ s

abbrev pub with_digit : Char → Option (List Char) → Option Char → Option (List Char)
with_digit first none digit = none
with_digit first (some s) none = none
with_digit first (some s) (some digit) = some (lstrip_char first s ++ digit ∷ [])

-- _int2base, on fuel; `first` is chars[0], and `none` says that the fuel ran out
unfoldable pub int2base : ℕ → List Char → Char → ℕ → Option (List Char)
int2base zero chars first x = none
int2base (suc fuel) chars first x =
    let rest = int2base fuel chars first (x / length chars) in
    if x == 0 then some (first ∷ []) else with_digit first rest (char_of chars (x % length chars))

-- the default of `chars`
abbrev pub alphabet : List Char
alphabet = to_list "-0123456789ABCDEFGHIJKLMNOPQRSTUVWXYZ_abcdefghijklmnopqrstuvwxyz"

abbrev pub with_choices : Option (List Char) → List Char → Option (List Char)
with_choices none choices = none
with_choices (some s) choices = some (s ++ choices)

-- the part of an id behind its prefix, on the default characters: `days` since 2018, and what
-- random.randint and random.choice give
unfoldable pub gen_id : (days random : ℕ) → List Char → Option (List Char)
gen_id days random choices =
    with_choices (int2base (days * 8 + random + 1) alphabet "-" (days * 8 + random)) choices
