-- ===== src/Crud/Checks.antt =====
-- apicrud/basic_crud.py: BasicCRUD._create_contact, and the checks that update_contact begins with. The
-- proof is in the module below.
pub mod Phone
use Prim.Native.String.{String}
use apicrud.Prelude.{
  ℕ, zero, suc, ◌+◌, Bool, true, false, not, ◌&&◌, ◌||◌, Option, none, some, List, [], ◌∷◌, Char,
  code, leb, if◌then◌else◌, ◌==◌, text_eq, option_eq, number_eq, char_eq,
}
use apicrud.Python.Result.{Exn, Result, ok, err, ◌>>=◌, or_raise}
use apicrud.Python.Dict.{Dict, lookup, insert}
use apicrud.Python.Text.{to_list, same_char}
use apicrud.Python.Sort.{text_of}
use apicrud.Python.Number.{decimal}
use apicrud.Python.PySet.{contains}
use apicrud.Access.{AccessControl, Row}
use apicrud.Access.Rbac.{roles_of}
use apicrud.Database.{Tables, Session, commit, rollback}
use apicrud.Crud.{
  Response, Controller, Item, null, text, flag, ids, is_true, columns_of, may, db_abort, denied,
}
use apicrud.Crud.Update.{renames}
use apicrud.Utils.{identity_normalize}
use apicrud.Crud.Patterns.{in_phone, starts_with_phone, phone_digits, email_match, stripped}

-- body['info'], which the calls want to be a text
unfoldable pub info_of : Exn → Option Item → Result String
info_of e none = err Exn.key_error
info_of e (some null) = err e
info_of e (some (text t)) = ok t
info_of e (some (flag b)) = err e
info_of e (some (ids xs)) = err e

-- how the tests of a body end: a response, or the body that goes on
pub data Checked : Type 0 where
  stopped : Response → Checked
  passed : Dict Item → Checked

abbrev pub refusal : String → Checked
refusal message = stopped (record { code = 405; id = none; message = message })

unfoldable pub check_phone : Dict Item → String → Checked
check_phone body info =
    if starts_with_phone 5 (to_list info)
    then passed (insert "info" (text (text_of (phone_digits (to_list info)))) body)
    else refusal "invalid mobile number"

-- re.match on None raises TypeError
unfoldable pub check_email : Dict Item → Option String → Result Checked
check_email body none = err Exn.type_error
check_email body (some info) = ok (
    if email_match false (to_list info)
    then passed (insert "info" (text info) body)
    else refusal "invalid email address")

-- body.get('carrier') is None
abbrev pub is_none : Option Item → Bool
is_none none = true
is_none (some null) = true
is_none (some (text t)) = false
is_none (some (flag b)) = false
is_none (some (ids xs)) = false

abbrev pub is_text : String → Option Item → Bool
is_text s none = false
is_text s (some null) = false
is_text s (some (text t)) = t == s
is_text s (some (flag b)) = false
is_text s (some (ids xs)) = false

unfoldable pub check_sms : Dict Item → Result Checked
check_sms body =
    if is_none (lookup "carrier" body)
    then ok (refusal "carrier required for sms")
    else (do info ← info_of Exn.type_error (lookup "info" body); ok (check_phone body info))

unfoldable pub check_mail : Dict Item → Result Checked
check_mail body = do
  info ← info_of Exn.attribute_error (lookup "info" body)
  check_email body (identity_normalize (stripped info))

-- the tests of update_contact; `other` is what they lead to for another type
unfoldable pub check_type : Checked → Dict Item → Result Checked
check_type other body =
    if is_text "sms" (lookup "type" body)
    then check_sms body
    else if is_text "email" (lookup "type" body)
    then check_mail body
    else ok other

abbrev pub is_present : Option Item → Bool
is_present none = false
is_present (some item) = true

-- body.get('uid', acc.uid) != acc.uid
unfoldable pub other_uid : Option Item → Option String → Bool
other_uid none uid = false
other_uid (some null) uid = not (uid == none)
other_uid (some (text t)) uid = not (uid == some t)
other_uid (some (flag b)) uid = true
other_uid (some (ids xs)) uid = true

-- 'admin' not in acc.auth
unfoldable pub not_admin : Option (List String) → Result Bool
not_admin none = err Exn.type_error
not_admin (some roles) = ok (not (contains "admin" roles))

-- `if not body.get('status')`
unfoldable pub with_status : Dict Item → Checked
with_status body =
    passed
      (if is_true (lookup "status" body) then body else insert "status" (text "unconfirmed") body)

unfoldable pub check_uid : AccessControl → Dict Item → Result Checked
check_uid acc body =
    if other_uid (lookup "uid" body) acc.uid
    then (do
      stranger ← not_admin acc.auth
      ok (
          if stranger
          then stopped (record { code = 403; id = none; message = "access denied" })
          else with_status body))
    else ok (with_status body)

-- `if not body.get('rank')`; `count` is that of the person's contacts of the type, where `none` is an
-- exception
unfoldable pub with_rank : Option ℕ → Dict Item → Checked
with_rank none body = if is_true (lookup "rank" body) then passed body else stopped db_abort
with_rank (some count) body =
    if is_true (lookup "rank" body)
    then passed body
    else passed (insert "rank" (text (decimal (count + 1))) body)

abbrev pub and_check : Checked → (Dict Item → Result Checked) → Result Checked
and_check (stopped response) next = ok (stopped response)
and_check (passed body) next = next body

unfoldable pub create_contact : AccessControl → Option ℕ → Dict Item → Result Checked
create_contact acc count body = do
  typed ←
      check_type
        (if is_present (lookup "type" body)
          then refusal "contact type not yet supported"
          else passed body)
        body
  and_check typed (λ body'. and_check (with_rank count body') (check_uid acc))
