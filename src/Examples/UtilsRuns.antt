-- ===== src/Examples/UtilsRuns.antt =====
-- Ids of two days.
use apicrud.Prelude.{◌+◌, true, some, List, [], ◌∷◌, ◌≡◌, refl, arith, Char, length, number_eq}
use apicrud.Python.Text.{to_list}
use apicrud.Utils.{int2base, lstrip_char, gen_id}
use apicrud.Utils.Ids.{lex_less, gen_id-length, gen_id_ordered}

abbrev drawn : List Char
drawn = "a" ∷ "b" ∷ "c" ∷ "d" ∷ "e" ∷ []

gen_id-length_example :
    (s : List Char) × (gen_id 900 3 drawn ≡ some s) × (length s ≡ 3 + length drawn)
gen_id-length_example = gen_id-length 900 3 drawn (omega arith) (omega arith) (omega arith)

abbrev earlier : List Char
earlier = "0" ∷ "k" ∷ "Y" ∷ drawn

abbrev later : List Char
later = "0" ∷ "k" ∷ "f" ∷ drawn

gen_id_ordered_example : lex_less earlier later ≡ true
unfolding gen_id int2base lstrip_char to_list
gen_id_ordered_example =
    gen_id_ordered 900 901 3 3 drawn drawn earlier later (omega arith) (omega arith) (omega arith)
      (omega arith) refl refl
