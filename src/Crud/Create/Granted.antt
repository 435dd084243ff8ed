-- ===== src/Crud/Create/Granted.antt =====
-- apicrud/basic_crud.py, BasicCRUD.create: who may create a record.
use apicrud.Prelude.{
  ℕ, Bool, true, false, Option, none, some, String, ◌≡◌, ◌⊎◌, inl, inr, refl, sym, ap, if_cases,
  ◌==◌, text_eq,
}
use apicrud.Python.Result.{Result, ok, err}
use apicrud.Python.Dict.{Dict, lookup}
use apicrud.Python.PySet.{contains}
use apicrud.Database.{Tables, Session}
use apicrud.Crud.{Controller, Item, Outcome}
use apicrud.Crud.Checks.{Checked, stopped, passed, is_present}
use apicrud.Crud.Prepare.{
  Model, Making, Prepared, returns, raises, inserts, permission, if_permitted, if_dated, prepare,
  after_contact, prepared_body,
}
use apicrud.Crud.Prepare.Limited.{Limited, over_limit_uid, categorized-Limited}
use apicrud.Crud.Create.{Inserts, create_prepared, create}
use apicrud.Crud.Create.Others.{create_prepared-Same}

module _ (c : Controller) (model : Model) (m : Making) (limits : Dict ℕ) where
  -- the caller may create a record for the person of the columns, who has not reached the grant
  abbrev pub Granted : Dict Item → Type 0
  Granted columns =
      (body : Dict Item) × (lookup "uid" columns ≡ lookup "uid" body)
      × (permission c model m limits body ≡ ok true)
      × Limited c model m limits columns

  if_permitted-Granted :
      (body columns : Dict Item) (permitted : Result Bool)
      → contains "uid" c.rest_related ≡ false
      → permission c model m limits body ≡ permitted
      → if_permitted c model m limits body permitted ≡ inserts columns
      → Granted columns
  unfolding if_permitted
  if_permitted-Granted body columns (err e) apart known h = absurd (cc)
  if_permitted-Granted body columns (ok false) apart known h = absurd (cc)
  if_permitted-Granted body columns (ok true) apart known h =
      let (within, uid) = categorized-Limited c model m limits body columns apart h in
      (body, uid, known, over_limit_uid c model m limits body columns (sym uid) within)

  if_dated-Granted :
      (body : Option (Dict Item)) (columns : Dict Item)
      → contains "uid" c.rest_related ≡ false
      → if_dated c model m limits body ≡ inserts columns
      → Granted columns
  unfolding if_dated
  if_dated-Granted none columns apart h = absurd (cc)
  if_dated-Granted (some body) columns apart h = if_permitted-Granted _ columns _ apart refl h

  prepare-Granted :
      (body columns : Dict Item)
      → contains "uid" c.rest_related ≡ false
      → prepare c model m limits body ≡ inserts columns
      → Granted columns
  unfolding prepare
  prepare-Granted body columns apart =
      if_cases (λ (p : Prepared). p ≡ inserts columns → Granted columns)
        (is_present (lookup "id" body)) _ _ (λ given h. absurd (cc))
        (λ absent. if_dated-Granted _ columns apart)

  after_contact-Granted :
      (checked : Result Checked) (columns : Dict Item)
      → contains "uid" c.rest_related ≡ false
      → after_contact c model m limits checked ≡ inserts columns
      → Granted columns
  unfolding after_contact
  after_contact-Granted (err e) columns apart h = absurd (cc)
  after_contact-Granted (ok (stopped response)) columns apart h = absurd (cc)
  after_contact-Granted (ok (passed body)) columns apart h = prepare-Granted body columns apart h

  prepared_body-Granted :
      (body columns : Dict Item)
      → contains "uid" c.rest_related ≡ false
      → prepared_body c model m limits body ≡ inserts columns
      → Granted columns
  unfolding prepared_body
  prepared_body-Granted body columns apart =
      if_cases (λ (p : Prepared). p ≡ inserts columns → Granted columns) (c.resource == "contact") _
        _ (λ contact. after_contact-Granted _ columns apart)
        (λ other. prepare-Granted body columns apart)

  create_prepared-Granted :
      (db : Tables) (tables : Inserts db) (outcome : Outcome) (body : Dict Item)
      (prepared : Prepared) (s : Session db.State)
      → contains "uid" c.rest_related ≡ false
      → prepared_body c model m limits body ≡ prepared
      → ((create_prepared c model m limits db tables outcome body prepared s).0 ≡ s)
        ⊎ ((columns : Dict Item) × (prepared ≡ inserts columns) × Granted columns)
  unfolding create_prepared
  create_prepared-Granted db tables outcome body (raises e) s apart known = inl refl
  create_prepared-Granted db tables outcome body (returns given) s apart known = inl refl
  create_prepared-Granted db tables outcome body (inserts columns) s apart known =
      inr (columns, refl, prepared_body-Granted body columns apart known)

  -- A request to create a record changes no row but the one of its new id, whichever way it ends, if
  -- there were no pending changes; and it leaves the tables as they are, or goes on with columns for
  -- whose person the caller may create the record, and that person has not reached the number of
  -- records that is granted, where the resource has such a grant. No list of related records is called
  -- `uid`.
  pub create-Granted :
      (db : Tables) (tables : Inserts db) (outcome : Outcome) (body : Dict Item)
      (s : Session db.State) (j : String)
      → contains "uid" c.rest_related ≡ false
      → s.now ≡ s.saved
      → (m.fresh_id == j) ≡ false
      → (db.row (create c model m limits db tables outcome body s).0.saved j ≡ db.row s.saved j)
        × (((create c model m limits db tables outcome body s).0 ≡ s)
            ⊎ ((columns : Dict Item) × (prepared_body c model m limits body ≡ inserts columns)
                × Granted columns))
  unfolding create
  create-Granted db tables outcome body s j apart settled other = (
    (create_prepared-Same c model m limits db tables j s.saved outcome body _ s other
        (ap (λ (t : db.State). db.row t j) settled, refl)).1,
    create_prepared-Granted db tables outcome body _ s apart refl,
  )
