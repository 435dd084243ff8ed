-- ===== src/Crud/Create.antt =====
-- apicrud/basic_crud.py: BasicCRUD.create, from the INSERT on. The proofs are in the modules below.
pub mod Others
pub mod Granted
pub mod Partial
use Prim.Native.String.{String, count}
use apicrud.Prelude.{
  ℕ, Bool, true, false, not, ◌&&◌, ◌||◌, Option, none, some, ◌⧺◌, List, [], ◌∷◌, ◌≡◌, length, ltb,
  if◌then◌else◌, ◌==◌, text_eq, option_eq,
}
use apicrud.Prelude.Int.{ℤ, pos, leb_ℤ}
use apicrud.Python.Result.{Exn, Result, ok, err, ◌>>=◌}
use apicrud.Python.Text.{truthy, last_chars}
use apicrud.Python.Dict.{Dict, lookup, insert, remove}
use apicrud.Python.PySet.{contains}
use apicrud.Access.{AccessControl, Row}
use apicrud.Access.Rbac.{with_permission}
use apicrud.Database.{Tables, Session, commit, rollback}
use apicrud.Grants.{Limit, undefined, number, word}
use apicrud.Crud.{
  Response, Controller, Item, null, text, flag, ids, is_true, columns_of, Outcome, fine, integrity,
  broken, db_abort, chars_of,
}
use apicrud.Crud.Update.{parsed_expiry, with_expiry}
use apicrud.Crud.Related.{update_related}
use apicrud.Crud.Checks.{Checked, stopped, passed, create_contact, is_present}
use apicrud.Crud.Prepare.{
  Model, Making, Made, answer, Prepared, returns, raises, inserts, related_items, prepared_body,
}

-- the INSERT of a row, whose id is new
pub record Inserts (db : Tables) : Type 0 where
  pub insert_row : db.State → String → Dict (Option String) → db.State
  pub row-insert :
      (t : db.State) (k : String) (cols : Dict (Option String))
      → (row : Row) × (db.row (insert_row t k cols) k ≡ some row)
  pub row-insert_other :
      (t : db.State) (k : String) (cols : Dict (Option String)) (j : String)
      → (k == j) ≡ false
      → db.row (insert_row t k cols) j ≡ db.row t j

-- set(related_ids), which raises TypeError on None and on a truth value
abbrev pub members_of : Item → Option (List String)
members_of null = none
members_of (text t) = some (chars_of t)
members_of (flag b) = none
members_of (ids members) = some members

module _ (c : Controller) (model : Model) (m : Making) (limits : Dict ℕ) where
  -- dict(id=id, **ret_info), 201
  unfoldable pub made : Made
  made = record {
    response = record { code = 201; id = some m.fresh_id; message = "" };
    apikey = if c.resource == "apikey" then some (m.key_prefix ⧺ ("." ⧺ m.key_secret)) else none;
  }

  module _ (db : Tables) (tables : Inserts db) where
    abbrev pub unit_of : Session db.State × Result Response → Session db.State × Result (Unit {0})
    unit_of (s, err e) = (s, err e)
    unit_of (s, ok response) = (s, ok tt)

    -- _update_related, whose result is not looked at
    unfoldable pub relate_item :
        String → Option (List String) → Session db.State → Session db.State × Result (Unit {0})
    relate_item attr none s = (s, err Exn.type_error)
    relate_item attr (some members) s =
        unit_of (update_related db (m.exists_in attr) m.fresh_id attr members none s)

    -- `for related, records in related_items.items()`
    unfoldable pub relate_items :
        List (String × Item)
        → Session db.State × Result (Unit {0})
        → Session db.State × Result (Unit {0})
    relate_items items (s, err e) = (s, err e)
    relate_items [] (s, ok u) = (s, ok u)
    relate_items ((attr, item) ∷ items) (s, ok u) =
        relate_items items (relate_item attr (members_of item) s)

    -- the end of the `try`: a last commit, or the exception
    unfoldable pub finish : Session db.State × Result (Unit {0}) → Session db.State × Result Made
    finish (s, err e) = (rollback s, ok (record { response = db_abort; apikey = none }))
    finish (s, ok u) = (commit s, ok made)

    -- the commits, for the tables with the new row: with related items there is one before them, and
    -- behind a conflict there is none, nor a rollback
    unfoldable pub insert_committed :
        Outcome
        → List (String × Item)
        → db.State
        → Session db.State
        → Session db.State × Result Made
    insert_committed fine [] t s = finish (record s { now = t }, ok tt)
    insert_committed fine (item ∷ items) t s =
        finish (relate_items (item ∷ items) (commit (record s { now = t }), ok tt))
    insert_committed integrity items t s = (s, ok (answer 405 "duplicate or other conflict"))
    insert_committed broken items t s =
        (rollback s, ok (record { response = db_abort; apikey = none }))

    -- self.model(**body), g.db.add and the commits; without columns, the INSERT raises an exception
    unfoldable pub insert_body :
        Outcome
        → List (String × Item)
        → Option (Dict (Option String))
        → Session db.State
        → Session db.State × Result Made
    insert_body outcome items none s =
        (rollback s, ok (record { response = db_abort; apikey = none }))
    insert_body outcome items (some cols) s =
        insert_committed outcome items (tables.insert_row s.now m.fresh_id cols) s

    unfoldable pub create_prepared :
        Outcome → Dict Item → Prepared → Session db.State → Session db.State × Result Made
    create_prepared outcome body (raises e) s = (s, err e)
    create_prepared outcome body (returns given) s = (s, ok given)
    create_prepared outcome body (inserts columns) s =
        if m.takes columns
        then insert_body outcome
            (if model.has_related then related_items c.rest_related body else [])
            (columns_of columns) s
        else (s, ok (answer 405 "unexpected keyword argument"))

    -- create, for the outcome of its first commit
    unfoldable pub create : Outcome → Dict Item → Session db.State → Session db.State × Result Made
    create outcome body s = create_prepared outcome body (prepared_body c model m limits body) s
