-- ===== src/Crud/Contact.antt =====
-- apicrud/basic_crud.py: BasicCRUD.update_contact. The proof is in the module below.
pub mod Sync
use Prim.Native.String.{String}
use apicrud.Prelude.{
  ℕ, zero, suc, ◌+◌, Bool, true, false, not, ◌&&◌, ◌||◌, Option, none, some, List, [], ◌∷◌, Char,
  code, leb, if◌then◌else◌, ◌==◌, text_eq, option_eq, number_eq, char_eq,
}
use apicrud.Python.Result.{Exn, Result, ok, err, ◌>>=◌, or_raise}
use apicrud.Python.Dict.{Dict, lookup, insert}
use apicrud.Python.Text.{to_list, same_char}
use apicrud.Python.Sort.{text_of}
use apicrud.Python.Number.{decimal}
use apicrud.Python.PySet.{contains}
use apicrud.Access.{AccessControl, Row}
use apicrud.Access.Rbac.{roles_of}
use apicrud.Database.{Tables, Session, commit, rollback}
use apicrud.Crud.{
  Response, Controller, Item, null, text, flag, ids, is_true, columns_of, may, db_abort, denied,
}
use apicrud.Crud.Update.{renames}
use apicrud.Utils.{identity_normalize}
use apicrud.Crud.Checks.{Checked, stopped, passed, check_type, is_text}

-- the identities of the persons, by id
abbrev pub People : Type 0
People = Dict String

-- filter_by(identity=prev).one(): the person, if there is one; an exception where there are more
abbrev pub add_match : String → Result (Option String) → Result (Option String)
add_match id (err e) = err e
add_match id (ok none) = ok (some id)
add_match id (ok (some other)) = err Exn.value_error

unfoldable pub person_of : Option String → People → Result (Option String)
person_of prev [] = ok none
person_of prev ((id, identity) ∷ people) =
    if prev == some identity then add_match id (person_of prev people) else person_of prev people

-- body.get('info'), as the column of identities takes it, which is not NULL; `none` is an exception
unfoldable pub identity_item : Option Item → Option String
identity_item none = none
identity_item (some null) = none
identity_item (some (text t)) = some t
identity_item (some (flag b)) = none
identity_item (some (ids xs)) = none

-- the contacts' table and the persons
module _ (db : Tables) where
  abbrev pub Book : Type 0
  Book = db.State × People

  abbrev pub conflict : Session Book → Session Book × Response
  conflict s = (rollback s, record { code = 405; id = none; message = "conflict with existing" })

  -- primary.identity = body.get('info'), and the commit; `fits` says whether the database takes both
  unfoldable pub with_identity :
      Bool
      → (id person : String) → db.State
      → Option String
      → Session Book
      → Session Book × Response
  with_identity fits id person t none s = conflict s
  with_identity fits id person t (some identity) s =
      if fits
      then (
        commit (record s { now = (t, insert person identity s.now.1) }),
        record { code = 200; id = some id; message = "updated" },
      )
      else conflict s

  -- what the query for the person finds
  unfoldable pub sync_person :
      Bool
      → String
      → Dict Item
      → db.State
      → Result (Option String)
      → Session Book
      → Session Book × Response
  sync_person fits id body t (err e) s = conflict s
  sync_person fits id body t (ok none) s =
      if fits
      then (
        commit (record s { now = (t, s.now.1) }),
        record { code = 200; id = some id; message = "updated" },
      )
      else conflict s
  sync_person fits id body t (ok (some person)) s =
      with_identity fits id person t (identity_item (lookup "info" body)) s

  -- if body.get('status') != 'disabled'
  unfoldable pub unconfirmed : Dict Item → Dict Item
  unconfirmed body =
      if is_text "disabled" (lookup "status" body)
      then body
      else insert "status" (text "unconfirmed") body

  -- query.update(body)
  unfoldable pub write_contact :
      Bool
      → String
      → (prev : Option String) (body : Dict Item) → Option (Dict (Option String))
      → Session Book
      → Session Book × Response
  write_contact fits id prev body none s = conflict s
  write_contact fits id prev body (some cols) s =
      sync_person fits id body (db.update_row s.now.0 id cols) (person_of prev s.now.1) s

  abbrev pub column_of : Option (Option String) → Option String
  column_of none = none
  column_of (some v) = v

  unfoldable pub contact_permitted :
      Bool → String → Dict Item → Result Bool → Option Row → Session Book → Session Book × Response
  contact_permitted fits id body (err e) found s = conflict s
  contact_permitted fits id body (ok false) found s = (s, denied id)
  contact_permitted fits id body (ok true) none s = conflict s
  contact_permitted fits id body (ok true) (some row) s =
      write_contact fits id (column_of (lookup "info" row.columns)) (unconfirmed body)
        (columns_of (unconfirmed body)) s

  abbrev pub replied : Session Book × Response → Session Book × Result Response
  replied (s, response) = (s, ok response)

  unfoldable pub update_checked :
      Controller
      → Bool
      → (now id : String) → Result Checked
      → Session Book
      → Session Book × Result Response
  update_checked c fits now id (err e) s = (s, err e)
  update_checked c fits now id (ok (stopped response)) s = (s, ok response)
  update_checked c fits now id (ok (passed body)) s =
      if renames id (lookup "id" body)
      then (s, ok (record { code = 405; id = none; message = "id is a read-only property" }))
      else replied (
          contact_permitted fits id (insert "modified" (text now) body)
            (may c "u" (db.row s.now.0 id)) (db.row s.now.0 id) s)

  unfoldable pub update_contact :
      Controller
      → Bool
      → (now id : String) → Dict Item
      → Session Book
      → Session Book × Result Response
  update_contact c fits now id body s =
      update_checked c fits now id (check_type (passed body) body) s
