-- ===== src/Crud/Patterns.antt =====
-- apicrud/const.py: REGEX_PHONE and REGEX_EMAIL, as apicrud/basic_crud.py matches the texts of contacts
-- with them, and its str.strip.
use Prim.Native.String.{String}
use apicrud.Prelude.{
  ℕ, zero, suc, Bool, true, false, ◌&&◌, ◌||◌, List, [], ◌∷◌, Char, code, leb, if◌then◌else◌, ◌==◌,
  text_eq, option_eq, number_eq, char_eq,
}
use apicrud.Python.Text.{to_list}
use apicrud.Python.Sort.{text_of}
use apicrud.Python.PySet.{contains}

-- [0-9()+ -]
unfoldable pub in_phone : Char → Bool
in_phone c = (leb 48 (code c) && leb (code c) 57) || contains (code c) (40 ∷ 41 ∷ 43 ∷ 32 ∷ 45 ∷ [])

-- re.match('[0-9()+ -]{5,20}', info): nothing is said of what follows
unfoldable pub starts_with_phone : ℕ → List Char → Bool
starts_with_phone zero s = true
starts_with_phone (suc n) [] = false
starts_with_phone (suc n) (c ∷ s) = in_phone c && starts_with_phone n s

-- re.sub('[- ()]', '', info)
unfoldable pub phone_digits : List Char → List Char
phone_digits [] = []
phone_digits (c ∷ s) =
    let rest = phone_digits s in
    if contains (code c) (45 ∷ 32 ∷ 40 ∷ 41 ∷ []) then rest else c ∷ rest

abbrev pub is_letter : Char → Bool
is_letter c = leb 97 (code c) && leb (code c) 122

-- [a-z0-9.-], and [a-z0-9._%+-]
unfoldable pub in_domain : Char → Bool
in_domain c =
    is_letter c || (leb 48 (code c) && leb (code c) 57) || contains (code c) (46 ∷ 45 ∷ [])

unfoldable pub in_user : Char → Bool
in_user c = in_domain c || contains (code c) (95 ∷ 37 ∷ 43 ∷ [])

abbrev pub two_letters : List Char → Bool
two_letters [] = false
two_letters (c ∷ []) = false
two_letters (c ∷ d ∷ s) = is_letter c && is_letter d

-- [a-z0-9.-]*\.[a-z]{2}, behind one character of the domain
unfoldable pub rest_of_domain : List Char → Bool
rest_of_domain [] = false
rest_of_domain (c ∷ s) = (code c == 46 && two_letters s) || (in_domain c && rest_of_domain s)

abbrev pub domain_match : List Char → Bool
domain_match [] = false
domain_match (c ∷ s) = in_domain c && rest_of_domain s

-- re.match('[a-z0-9._%+-]+@[a-z0-9.-]+\.[a-z]{2}', info): `some_user` says that a character stands
-- before
unfoldable pub email_match : Bool → List Char → Bool
email_match some_user [] = false
email_match some_user (c ∷ s) =
    if code c == 64 then some_user && domain_match s else in_user c && email_match true s

-- whitespace, for an ASCII text
unfoldable pub is_space : Char → Bool
is_space c =
    code c == 32 || (leb 9 (code c) && leb (code c) 13) || (leb 28 (code c) && leb (code c) 31)

unfoldable pub left_space : List Char → List Char
left_space [] = []
left_space (c ∷ s) = let rest = left_space s in if is_space c then rest else c ∷ s

abbrev pub unless_blank : Char → List Char → List Char
unless_blank c [] = if is_space c then [] else c ∷ []
unless_blank c (d ∷ s) = c ∷ d ∷ s

unfoldable pub right_space : List Char → List Char
right_space [] = []
right_space (c ∷ s) = unless_blank c (right_space s)

-- text.strip()
unfoldable pub stripped : String → String
stripped t = text_of (right_space (left_space (to_list t)))
