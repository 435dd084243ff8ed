-- ===== src/Crud/Update.antt =====
-- apicrud/basic_crud.py: BasicCRUD.update. The proofs are in the modules below.
pub mod Safety
pub mod Unchecked
use apicrud.Prelude.{
  ℕ, zero, suc, Bool, true, false, not, Option, none, some, String, List, [], ◌∷◌, Char,
  if◌then◌else◌, ◌==◌, text_eq, option_eq, number_eq,
}
use apicrud.Python.Result.{Exn, Result, ok, err}
use apicrud.Python.Dict.{Dict, lookup, insert, remove}
use apicrud.Access.{Row}
use apicrud.Database.{Tables, Session, commit, rollback}
use apicrud.Crud.{
  Response, Controller, Item, null, text, flag, ids, is_true, chars_of, columns_of, Outcome, fine,
  integrity, broken, may, db_abort, denied,
}
use apicrud.Crud.Dates.{from_date}
use apicrud.Crud.Related.{update_related}

-- the operation has returned, has raised an exception that it does not catch, or goes on with a body
pub data Flow (T : Type 0) : Type 0 where
  returned : Session T → Response → Flow T
  raised : Session T → Exn → Flow T
  continued : Session T → Dict Item → Flow T

-- `'id' in body and body['id'] != id`
unfoldable pub renames : String → Option Item → Bool
renames id none = false
renames id (some null) = true
renames id (some (text t)) = not (t == id)
renames id (some (flag b)) = true
renames id (some (ids xs)) = true

-- body['expires'], where it is true; `none` is an exception
unfoldable pub parsed_expiry : (Bool → String → Option String) → Option Item → Option (Option Item)
parsed_expiry strptime (some (text t)) =
    if t == ""
    then some none
    else elim (from_date strptime t) [ none ↦ none | some d ↦ some (some (text d)) ]
parsed_expiry strptime none = some none
parsed_expiry strptime (some null) = some none
parsed_expiry strptime (some (flag b)) = if b then none else some none
parsed_expiry strptime (some (ids xs)) = if is_true (some (ids xs)) then none else some none

unfoldable pub with_expiry : Dict Item → Option (Option Item) → Option (Dict Item)
with_expiry body none = none
with_expiry body (some none) = some body
with_expiry body (some (some d)) = some (insert "expires" d body)

-- `if 'totp' in body and not body.pop('totp'): body['totp_secret'] = None`
unfoldable pub without_totp : Option Item → Dict Item → Dict Item
without_totp none body = body
without_totp (some item) body =
    let body' = remove "totp" body in
    if is_true (some item) then body' else insert "totp_secret" null body'

module _ (db : Tables) (exists_in : String → String → Bool) (id : String) where
  -- what a call of _update_related leads to
  unfoldable pub after_related : Dict Item → Session db.State × Result Response → Flow db.State
  after_related body (s, err e) = raised s e
  after_related body (s, ok response) =
      if response.code == 200 then continued s body else returned s response

  -- body.pop(related), where it is in the body
  unfoldable pub relate_one :
      Dict ℕ → String → Option Item → Dict Item → Session db.State → Flow db.State
  relate_one limits attr none body s = continued s body
  relate_one limits attr (some (ids members)) body s =
      after_related (remove attr body)
        (update_related db (exists_in attr) id attr members (lookup attr limits) s)
  relate_one limits attr (some null) body s = raised s Exn.type_error
  relate_one limits attr (some (text t)) body s =
      after_related (remove attr body)
        (update_related db (exists_in attr) id attr (chars_of t) (lookup attr limits) s)
  relate_one limits attr (some (flag b)) body s = raised s Exn.type_error

  -- `for related in self.model.__rest_related__`
  unfoldable pub relate_loop : Dict ℕ → List String → Flow db.State → Flow db.State
  relate_loop limits [] flow = flow
  relate_loop limits (attr ∷ attrs) (returned s response) = returned s response
  relate_loop limits (attr ∷ attrs) (raised s e) = raised s e
  relate_loop limits (attr ∷ attrs) (continued s body) =
      relate_loop limits attrs (relate_one limits attr (lookup attr body) body s)

module _ (db : Tables) (id : String) where
  -- the UPDATE and the commit
  unfoldable pub write_row :
      Outcome → Option (Dict (Option String)) → Session db.State → Session db.State × Response
  write_row outcome none s = (rollback s, db_abort)
  write_row fine (some cols) s = (
    commit (record s { now = db.update_row s.now id cols }),
    record { code = 200; id = some id; message = "updated" },
  )
  write_row integrity (some cols) s =
      (s, record { code = 405; id = none; message = "duplicate or other conflict" })
  write_row broken (some cols) s = (rollback s, db_abort)

  -- the part in the `try`, for a permission and for what the query finds
  unfoldable pub write_permitted :
      Outcome
      → Dict Item
      → Result Bool
      → Option Row
      → Session db.State
      → Session db.State × Response
  write_permitted outcome body (err e) found s = (rollback s, db_abort)
  write_permitted outcome body (ok false) found s = (s, denied id)
  write_permitted outcome body (ok true) none s = (rollback s, db_abort)
  write_permitted outcome body (ok true) (some row) s = write_row outcome (columns_of body) s

  unfoldable pub write_body :
      Controller → Char → Outcome → Flow db.State → Session db.State × Result Response
  write_body c access outcome (returned s response) = (s, ok response)
  write_body c access outcome (raised s e) = (s, err e)
  write_body c access outcome (continued s body) =
      let found = db.row s.now id in
      let (s', response) = write_permitted outcome body (may c access found) found s in
      (s', ok response)

-- `now` is the text of the time, and `strptime` reads one
module _ (db : Tables) (exists_in : String → String → Bool)
    (strptime : Bool → String → Option String) (now : String) where
  -- the body, with the columns that the method sets; `none` is an expiry that is no date
  unfoldable pub prepared : Dict Item → Option (Dict Item)
  prepared body =
      let body' = insert "modified" (text now) body in
      with_expiry body' (parsed_expiry strptime (lookup "expires" body'))

  unfoldable pub update_prepared :
      Controller
      → String
      → Char
      → Dict ℕ
      → Outcome
      → Option (Dict Item)
      → Session db.State
      → Session db.State × Result Response
  update_prepared c id access limits outcome none s =
      (s, ok (record { code = 405; id = none; message = "invalid date" }))
  update_prepared c id access limits outcome (some body) s = write_body db id c access outcome (
      relate_loop db exists_in id limits c.rest_related
        (continued s (without_totp (lookup "totp" body) body)))

  unfoldable pub update :
      Controller
      → String
      → Dict Item
      → Char
      → Dict ℕ
      → Outcome
      → Session db.State
      → Session db.State × Result Response
  update c id body access limits outcome s =
      if renames id (lookup "id" body)
      then (s, ok (record { code = 405; id = none; message = "id is a read-only property" }))
      else update_prepared c id access limits outcome (prepared body) s
