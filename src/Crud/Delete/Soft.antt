-- ===== src/Crud/Delete/Soft.antt =====
-- apicrud/basic_crud.py, BasicCRUD.delete without `force`: the status of the rows.
use apicrud.Prelude.{
  ℕ, Bool, true, false, Option, none, some, String, List, [], ◌∷◌, ◌≡◌, arith, ◌==◌, number_eq,
  text_eq, Bool-cases, inl, inr, if_cases, ◌⊎◌, ◌≢◌,
}
use apicrud.Python.Result.{Result, ok, err}
use apicrud.Python.Dict.{lookup, merge, lookup-insert}
use apicrud.Python.PySet.{contains}
use apicrud.Access.{Row}
use apicrud.Database.{Tables, Session, set_columns}
use apicrud.Crud.{Controller}
use apicrud.Crud.Delete.{Progress, stopped, going, allowed, delete_one, delete_loop, finish, delete}

-- a row that is there has the status of a deleted record
abbrev pub IsDisabled : Option Row → Type 0
IsDisabled none = Unit {0}
IsDisabled (some row) = lookup "status" row.columns ≡ some (some "disabled")

set_columns-IsDisabled :
    (found : Option Row) → IsDisabled (set_columns (("status", some "disabled") ∷ []) found)
unfolding merge
set_columns-IsDisabled none = tt
set_columns-IsDisabled (some row) = lookup-insert "status" "status" (some "disabled") row.columns

module _ (db : Tables) (c : Controller) (raises : String → Bool) where
  -- in the loop, with some ids left: a row is still to come, or disabled
  abbrev Awaits : String → List String → Progress db.State → Type 0
  Awaits j ids (stopped s response) = response.code ≢ 204
  Awaits j ids (going s errors) = (contains j ids ≡ true) ⊎ IsDisabled (db.row s.now j)

  updated_row :
      (t : db.State) (id j : String)
      → ((id == j) ≡ true) ⊎ IsDisabled (db.row t j)
      → IsDisabled (db.row (db.update_row t id (("status", some "disabled") ∷ [])) j)
  updated_row t id j h = elim (Bool-cases (id == j)) [
    | inl same ↦
        rw (db.row-update t id (("status", some "disabled") ∷ []) j)
          (rw same (set_columns-IsDisabled (db.row t j)))
    | inr other ↦
        rw (db.row-update t id (("status", some "disabled") ∷ []) j)
          (rw other (elim h [ inl same ↦ absurd (cc) | inr disabled ↦ disabled ]))
  ]

  allowed-Awaits :
      (j id : String) (ids : List String) (permission : Result Bool) (s : Session db.State)
      (errors : ℕ)
      → (contains j (id ∷ ids) ≡ true) ⊎ IsDisabled (db.row s.now j)
      → Awaits j ids (allowed db false id permission s errors)
  unfolding allowed contains
  allowed-Awaits j id ids (err e) s errors h = omega arith
  allowed-Awaits j id ids (ok false) s errors h = omega arith
  allowed-Awaits j id ids (ok true) s errors (inr disabled) =
      inr (updated_row s.now id j (inr disabled))
  allowed-Awaits j id ids (ok true) s errors (inl listed) = elim (Bool-cases (id == j)) [
    | inl same ↦ inr (updated_row s.now id j (inl same))
    | inr other ↦ inl (let later = rw other at listed in later)
  ]

  delete_one-Awaits :
      (j id : String) (ids : List String) (s : Session db.State) (errors : ℕ)
      → (contains j (id ∷ ids) ≡ true) ⊎ IsDisabled (db.row s.now j)
      → Awaits j ids (delete_one db c false raises id s errors)
  unfolding delete_one
  delete_one-Awaits j id ids s errors h =
      if_cases (Awaits j ids) (raises id) _ _ (λ _. omega arith)
        (λ _. allowed-Awaits j id ids _ s errors h)

  delete_loop-Awaits :
      (j : String) (ids : List String) (p : Progress db.State)
      → Awaits j ids p
      → Awaits j [] (delete_loop db c false raises ids p)
  unfolding delete_loop
  delete_loop-Awaits j [] p h = h
  delete_loop-Awaits j (id ∷ ids) (stopped s response) h = h
  delete_loop-Awaits j (id ∷ ids) (going s errors) h =
      delete_loop-Awaits j ids (delete_one db c false raises id s errors)
        (delete_one-Awaits j id ids s errors h)

  finish-IsDisabled :
      (commits : Bool) (j : String) (p : Progress db.State)
      → Awaits j [] p
      → (finish db commits p).1.code ≡ 204
      → IsDisabled (db.row (finish db commits p).0.saved j)
  unfolding finish contains
  finish-IsDisabled commits j (stopped s response) h done = absurd (h done)
  finish-IsDisabled false j (going s errors) h done = absurd (omega (arith, done))
  finish-IsDisabled true j (going s errors) (inl never) done = absurd (cc)
  finish-IsDisabled true j (going s errors) (inr disabled) done = disabled

  -- After a delete without `force` that answers 204, every row of the given ids that is there is
  -- saved with the status `disabled`.
  pub delete-IsDisabled :
      (ids : List String) (commits : Bool) (s : Session db.State) (j : String)
      → contains j ids ≡ true
      → (delete db c raises commits ids false s).1.code ≡ 204
      → IsDisabled (db.row (delete db c raises commits ids false s).0.saved j)
  unfolding delete
  delete-IsDisabled ids commits s j listed =
      finish-IsDisabled commits j _ (delete_loop-Awaits j ids (going s 0) (inl listed))
