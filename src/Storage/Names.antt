-- ===== src/Storage/Names.antt =====
-- apicrud/media/storage.py, get_upload_url: the shorter name for a file from a phone. Texts are lists
-- of characters here.
pub mod Strip
use Prim.Native.String.{String}
use apicrud.Prelude.{
  ℕ, zero, suc, ◌+◌, ◌-◌, Bool, true, false, not, ◌&&◌, ◌||◌, Option, none, some, ◌⧺◌, List, [],
  ◌∷◌, ◌++◌, Char, code, leb, length, if◌then◌else◌, ◌==◌, number_eq, char_eq,
}
use apicrud.Python.Result.{Exn, Result, ok, err}
use apicrud.Python.Text.{to_list, same_char}
use apicrud.Python.Scan.{lower, one_of, any_char, ◌>>=◌}
use apicrud.Python.PySet.{contains}
use apicrud.Python.Sort.{text_of}

-- [a-f0-9]
unfoldable pub is_hex : Char → Bool
is_hex c = (leb 48 (code c) && leb (code c) 57) || (leb 97 (code c) && leb (code c) 102)

-- [a-f0-9] with its letters in either case
unfoldable pub is_hex_any : Char → Bool
is_hex_any c = (leb 48 (lower c) && leb (lower c) 57) || (leb 97 (lower c) && leb (lower c) 102)

unfoldable pub hex_run : ℕ → List Char → Option (List Char)
hex_run zero s = some s
hex_run (suc n) [] = none
hex_run (suc n) (c ∷ s) = let rest = hex_run n s in if is_hex_any c then rest else none

-- -?
unfoldable pub dash : List Char → List Char
dash [] = []
dash (c ∷ s) = if same_char c "-" then s else c ∷ s

-- ^[a-f0-9]{8}-?[a-f0-9]{4}-?4[a-f0-9]{3}-?[89ab][a-f0-9]{3}-?[a-f0-9]{12}.jpeg
unfoldable pub uuid_name : List Char → Option (List Char)
uuid_name name =
    hex_run 8 name
    >>= (λ s. hex_run 4 (dash s))
    >>= (λ s. one_of (52 ∷ []) (dash s))
    >>= (λ s. hex_run 3 s)
    >>= (λ s. one_of (56 ∷ 57 ∷ 97 ∷ 98 ∷ []) (dash s))
    >>= (λ s. hex_run 3 s)
    >>= (λ s. hex_run 12 (dash s))
    >>= any_char
    >>= one_of (106 ∷ [])
    >>= one_of (112 ∷ [])
    >>= one_of (101 ∷ [])
    >>= one_of (103 ∷ [])

-- s.strip('.jpeg'), by the set of its characters
unfoldable pub in_strip : Char → Bool
in_strip c = contains (code c) (46 ∷ 106 ∷ 112 ∷ 101 ∷ 103 ∷ [])

unfoldable pub lstrip : List Char → List Char
lstrip [] = []
lstrip (c ∷ s) = let rest = lstrip s in if in_strip c then rest else c ∷ s

abbrev pub unless_bare : Char → Bool → List Char → List Char
unless_bare c stripped [] = if stripped then [] else c ∷ []
unless_bare c stripped (d ∷ s) = c ∷ d ∷ s

unfoldable pub rstrip : List Char → List Char
rstrip [] = []
rstrip (c ∷ s) = unless_bare c (in_strip c) (rstrip s)

unfoldable pub strip : List Char → List Char
strip s = rstrip (lstrip s)

-- s.replace('-', '')
unfoldable pub undashed : List Char → List Char
undashed [] = []
undashed (c ∷ s) = let rest = undashed s in if same_char c "-" then rest else c ∷ rest

unfoldable pub all_hex : List Char → Bool
all_hex [] = true
all_hex (c ∷ s) = is_hex_any c && all_hex s

-- uuid.UUID(text), by its digits: ValueError unless there are 32
unfoldable pub uuid_digits : List Char → Result (List Char)
uuid_digits s =
    if length (undashed s) == 32 && all_hex (undashed s)
    then ok (undashed s)
    else err Exn.value_error

abbrev pub matched : Option (List Char) → Bool
matched none = false
matched (some rest) = true

unfoldable pub shortened : (List Char → String) → Result (List Char) → Result String
shortened b64 (err e) = err e
shortened b64 (ok digits) = ok (b64 digits ⧺ ".jpeg")

-- body['name']: `b64` is the base64 text of the bytes of 32 digits, for URLs and without `=`
unfoldable pub short_name : (List Char → String) → String → Result String
short_name b64 name =
    if matched (uuid_name (to_list name))
    then shortened b64 (uuid_digits (strip (to_list name)))
    else ok name
