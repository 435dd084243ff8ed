-- ===== src/Crud/Create/Others.antt =====
-- apicrud/basic_crud.py, BasicCRUD.create: the rows of other records.
use apicrud.Prelude.{
  ℕ, false, Option, none, some, String, List, [], ◌∷◌, ◌≡◌, ◌∙◌, if_cases, ◌==◌, text_eq,
}
use apicrud.Python.Result.{Result, ok, err}
use apicrud.Python.Dict.{Dict}
use apicrud.Database.{Tables, Session}
use apicrud.Crud.{Response, Controller, Item, Outcome, fine, integrity, broken, columns_of}
use apicrud.Crud.Update.Safety.{Same, update_related-Same}
use apicrud.Crud.Prepare.{Model, Making, Made, Prepared, returns, raises, inserts}
use apicrud.Crud.Create.{
  Inserts, unit_of, members_of, relate_item, relate_items, finish, insert_committed, insert_body,
  create_prepared,
}

module _ (c : Controller) (model : Model) (m : Making) (limits : Dict ℕ) (db : Tables)
    (tables : Inserts db) (j : String) (t : db.State) where
  unit_of-Same :
      (p : Session db.State × Result Response)
      → Same db j t p.0
      → Same db j t (unit_of c model m limits db tables p).0
  unit_of-Same (s, err e) same = same
  unit_of-Same (s, ok response) same = same

  relate_item-Same :
      (attr : String) (members : Option (List String)) (s : Session db.State)
      → Same db j t s
      → Same db j t (relate_item c model m limits db tables attr members s).0
  unfolding relate_item
  relate_item-Same attr none s same = same
  relate_item-Same attr (some members) s same =
      unit_of-Same _
        (update_related-Same db j t (m.exists_in attr) m.fresh_id attr members none s same)

  relate_items-Same :
      (items : List (String × Item)) (p : Session db.State × Result (Unit {0}))
      → Same db j t p.0
      → Same db j t (relate_items c model m limits db tables items p).0
  unfolding relate_items
  relate_items-Same [] (s, err e) same = same
  relate_items-Same [] (s, ok u) same = same
  relate_items-Same ((attr, item) ∷ items) (s, err e) same = same
  relate_items-Same ((attr, item) ∷ items) (s, ok u) same =
      relate_items-Same items _ (relate_item-Same attr (members_of item) s same)

  finish-Same :
      (p : Session db.State × Result (Unit {0}))
      → Same db j t p.0
      → Same db j t (finish c model m limits db tables p).0
  unfolding finish
  finish-Same (s, err e) same = (same.1, same.1)
  finish-Same (s, ok u) same = (same.0, same.0)

  insert_committed-Same :
      (outcome : Outcome) (items : List (String × Item)) (u : db.State) (s : Session db.State)
      → db.row u j ≡ db.row t j
      → Same db j t s
      → Same db j t (insert_committed c model m limits db tables outcome items u s).0
  unfolding insert_committed
  insert_committed-Same fine [] u s there same = finish-Same _ (there, same.1)
  insert_committed-Same fine (item ∷ items) u s there same =
      finish-Same _ (relate_items-Same (item ∷ items) _ (there, there))
  insert_committed-Same integrity items u s there same = same
  insert_committed-Same broken items u s there same = (same.1, same.1)

  insert_body-Same :
      (outcome : Outcome) (items : List (String × Item)) (cols : Option (Dict (Option String)))
      (s : Session db.State)
      → (m.fresh_id == j) ≡ false
      → Same db j t s
      → Same db j t (insert_body c model m limits db tables outcome items cols s).0
  unfolding insert_body
  insert_body-Same outcome items none s other same = (same.1, same.1)
  insert_body-Same outcome items (some cols) s other same =
      insert_committed-Same outcome items _ s
        (tables.row-insert_other s.now m.fresh_id cols j other ∙ same.0) same

  -- the rows of other records, for any way in which the preparation ends
  pub create_prepared-Same :
      (outcome : Outcome) (body : Dict Item) (prepared : Prepared) (s : Session db.State)
      → (m.fresh_id == j) ≡ false
      → Same db j t s
      → Same db j t (create_prepared c model m limits db tables outcome body prepared s).0
  unfolding create_prepared
  create_prepared-Same outcome body (raises e) s other same = same
  create_prepared-Same outcome body (returns given) s other same = same
  create_prepared-Same outcome body (inserts columns) s other same =
      if_cases (λ (p : Session db.State × Result Made). Same db j t p.0) (m.takes columns) _ _
        (λ taken. insert_body-Same outcome _ (columns_of columns) s other same) (λ refused. same)
