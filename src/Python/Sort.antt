-- ===== src/Python/Sort.antt =====
-- list.sort() on strings, which Python orders by their characters' numbers.
use Prim.Native.String.{String, compare}
use Prim.Native.Nat.{Ordering}
use apicrud.Prelude.{Bool, true, false, List, [], ◌∷◌, if◌then◌else◌, Char, code, leb}

unfoldable pub leb_text : String → String → Bool
leb_text s t = elim (compare s t) [ Ordering.gt ↦ false | _ ↦ true ]

-- an insertion behind the equal items, so that the sort is stable
unfoldable pub insert_sorted : String → List String → List String
insert_sorted x [] = x ∷ []
insert_sorted x (y ∷ ys) =
    let rest = insert_sorted x ys in if leb_text x y then x ∷ y ∷ ys else y ∷ rest

unfoldable pub sort : List String → List String
sort [] = []
sort (x ∷ xs) = insert_sorted x (sort xs)

unfoldable pub insert_char : Char → List Char → List Char
insert_char c [] = c ∷ []
insert_char c (d ∷ ds) =
    let rest = insert_char c ds in if leb (code c) (code d) then c ∷ d ∷ ds else d ∷ rest

-- ''.join(sorted(list(…))) of a set of characters
unfoldable pub sort_chars : List Char → List Char
sort_chars [] = []
sort_chars (c ∷ cs) = insert_char c (sort_chars cs)

unfoldable pub text_of : List Char → String
text_of [] = ""
text_of (c ∷ cs) = String.◌∷◌ c (text_of cs)
