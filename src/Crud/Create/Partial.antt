-- ===== src/Crud/Create/Partial.antt =====
-- apicrud/basic_crud.py, BasicCRUD.create: a related record that does not exist.
use apicrud.Prelude.{
  ℕ, Bool, true, false, Option, none, some, String, List, [], ◌∷◌, ◌≡◌, refl, ap, ◌∙◌,
  if◌then◌else◌, text_eq,
}
use apicrud.Python.Result.{Exn, ok, err}
use apicrud.Python.Dict.{Dict}
use apicrud.Python.PySet.{contains, union, minus}
use apicrud.Access.{Row}
use apicrud.Database.{Tables, Session}
use apicrud.Crud.{Controller, Item, ids, columns_of, fine, db_abort}
use apicrud.Crud.Related.{
  exceeds, relate_all, unlink_then, change_members, update_found, update_related,
}
use apicrud.Crud.Prepare.{Model, Making, inserts, prepared_body, related_items}
use apicrud.Crud.Create.{
  Inserts, relate_item, relate_items, finish, insert_committed, insert_body, create_prepared,
  create,
}

chosen_items :
    (b : Bool) (items found : List (String × Item))
    → b ≡ true
    → items ≡ found
    → (if b then items else []) ≡ found
chosen_items true items found e same = same
chosen_items false items found e same = absurd (cc)

module _ (c : Controller) (model : Model) (m : Making) (limits : Dict ℕ) (db : Tables)
    (tables : Inserts db) where
  relate_unknown :
      (attr x : String) (s : Session db.State) (row : Row)
      → db.row s.now m.fresh_id ≡ some row
      → contains x (db.related s.now m.fresh_id attr) ≡ false
      → m.exists_in attr x ≡ false
      → relate_item c model m limits db tables attr (some (x ∷ [])) s
        ≡ (record s { now = s.now }, err Exn.no_result_found)
  unfolding relate_item update_related exceeds update_found change_members relate_all unlink_then
      minus union
  relate_unknown attr x s row there apart unknown = rw (there) (rw (apart) (rw (unknown)))

  relate_items_err :
      (items : List (String × Item)) (s : Session db.State) (e : Exn)
      → relate_items c model m limits db tables items (s, err e) ≡ (s, err e)
  unfolding relate_items
  relate_items_err [] s e = refl
  relate_items_err (item ∷ items) s e = refl

  relate_items_unknown :
      (attr x : String) (items : List (String × Item)) (s : Session db.State) (row : Row)
      → db.row s.now m.fresh_id ≡ some row
      → contains x (db.related s.now m.fresh_id attr) ≡ false
      → m.exists_in attr x ≡ false
      → relate_items c model m limits db tables ((attr, ids (x ∷ [])) ∷ items) (s, ok tt)
        ≡ (s, err Exn.no_result_found)
  unfolding relate_items
  relate_items_unknown attr x items s row there apart unknown =
      ap (relate_items c model m limits db tables items)
        (relate_unknown attr x s row there apart unknown)
      ∙ relate_items_err items s Exn.no_result_found

  committed_partly :
      (attr x : String) (items : List (String × Item)) (t : db.State) (s : Session db.State)
      (row : Row)
      → db.row t m.fresh_id ≡ some row
      → contains x (db.related t m.fresh_id attr) ≡ false
      → m.exists_in attr x ≡ false
      → insert_committed c model m limits db tables fine ((attr, ids (x ∷ [])) ∷ items) t s
        ≡ (record { now = t; saved = t }, ok (record { response = db_abort; apikey = none }))
  unfolding insert_committed finish
  committed_partly attr x items t s row there apart unknown =
      ap (finish c model m limits db tables)
        (relate_items_unknown attr x items (record { now = t; saved = t }) row there apart unknown)

  -- When the first related record of a request does not exist, the answer has status 500, and the new
  -- record has been committed all the same.
  pub create_partial :
      (body columns : Dict Item) (cols : Dict (Option String)) (attr x : String)
      (items : List (String × Item)) (s : Session db.State)
      → prepared_body c model m limits body ≡ inserts columns
      → m.takes columns ≡ true
      → columns_of columns ≡ some cols
      → model.has_related ≡ true
      → related_items c.rest_related body ≡ (attr, ids (x ∷ [])) ∷ items
      → contains x (db.related (tables.insert_row s.now m.fresh_id cols) m.fresh_id attr) ≡ false
      → m.exists_in attr x ≡ false
      → ((create c model m limits db tables fine body s).1
          ≡ ok (record { response = db_abort; apikey = none }))
        × ((row : Row) × (db.row (create c model m limits db tables fine body s).0.saved m.fresh_id
              ≡ some row))
  unfolding create create_prepared insert_body
  create_partial body columns cols attr x items s prepared takes given related first apart unknown =
      let (row, there) = tables.row-insert s.now m.fresh_id cols in
      rw prepared (
        rw (takes, chosen_items model.has_related _ _ related first, given)
          (rw
            (committed_partly attr x items (tables.insert_row s.now m.fresh_id cols) s row there
              apart unknown)
            (refl, (row, there))))
