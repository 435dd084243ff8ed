-- ===== src/Crud/Checks/Phone.antt =====
-- apicrud/basic_crud.py, _create_contact and update_contact: what the pattern for phone numbers lets
-- through.
use Prim.Native.String.{String}
use apicrud.Prelude.{true, false, some, List, [], ◌∷◌, ◌++◌, ◌≡◌, refl, length, text_eq, Char, All}
use apicrud.Python.Result.{ok}
use apicrud.Python.Dict.{Dict, lookup, insert}
use apicrud.Python.Text.{to_list}
use apicrud.Python.Sort.{text_of}
use apicrud.Crud.{Item, text}
use apicrud.Crud.Patterns.{in_phone, starts_with_phone, phone_digits}
use apicrud.Crud.Checks.{
  check_phone, check_sms, check_type, Checked, passed, info_of, is_none, is_text,
}

starts_append :
    (front back : List Char)
    → All (λ c. in_phone c ≡ true) front
    → starts_with_phone (length front) (front ++ back) ≡ true
unfolding starts_with_phone
starts_append [] back h = refl
starts_append (c ∷ front) back (first, rest) = rw first (starts_append front back rest)

-- A contact by SMS with a carrier passes the tests when the first five characters of its number are
-- digits, signs or blanks, whatever stands behind them: the number that goes on is the whole text,
-- without dashes, blanks and parentheses.
pub check_sms_prefix :
    (other : Checked) (body : Dict Item) (info : String) (front back : List Char)
    → is_text "sms" (lookup "type" body) ≡ true
    → is_none (lookup "carrier" body) ≡ false
    → lookup "info" body ≡ some (text info)
    → to_list info ≡ front ++ back
    → length front ≡ 5
    → All (λ c. in_phone c ≡ true) front
    → check_type other body
      ≡ ok (passed (insert "info" (text (text_of (phone_digits (front ++ back)))) body))
unfolding check_type check_sms info_of check_phone
check_sms_prefix other body info front back sms carrier has parts five h =
    rw (sms) (rw (carrier) (rw (has) (rw (parts) (rw (← five) (rw (starts_append front back h))))))
