-- ===== src/Crud/Delete.antt =====
-- apicrud/basic_crud.py: BasicCRUD.delete. The proofs are in the modules below.
pub mod Safety
pub mod Soft
use apicrud.Prelude.{
  ℕ, zero, suc, Bool, true, false, Option, none, some, String, List, [], ◌∷◌, if◌then◌else◌, ◌==◌,
  number_eq,
}
use apicrud.Python.Result.{Exn, Result, ok, err}
use apicrud.Access.{Row}
use apicrud.Database.{Tables, Session, commit, rollback}
use apicrud.Crud.{Response, Controller, may, db_abort, denied}

-- the loop has returned, or goes on with a count of the queries that failed
pub data Progress (T : Type 0) : Type 0 where
  stopped : Session T → Response → Progress T
  going : Session T → ℕ → Progress T

module _ (db : Tables) where
  -- query.delete()
  unfoldable pub forced : String → Option Row → Session db.State → ℕ → Progress db.State
  forced id none s errors = going s (suc errors)
  forced id (some row) s errors = going (record s { now = db.delete_row s.now id }) errors

  unfoldable pub allowed : Bool → String → Result Bool → Session db.State → ℕ → Progress db.State
  allowed force id (err e) s errors = stopped (rollback s) db_abort
  allowed force id (ok false) s errors = stopped s (denied id)
  allowed force id (ok true) s errors =
      if force
      then forced id (db.row s.now id) s errors
      else going (record s { now = db.update_row s.now id (("status", some "disabled") ∷ []) })
          errors

  -- `raises id` says whether a statement for that id raises an exception
  unfoldable pub delete_one :
      Controller → Bool → (String → Bool) → String → Session db.State → ℕ → Progress db.State
  delete_one c force raises id s errors =
      if raises id
      then stopped (rollback s) db_abort
      else allowed force id (may c "d" (db.row s.now id)) s errors

  unfoldable pub delete_loop :
      Controller → Bool → (String → Bool) → List String → Progress db.State → Progress db.State
  delete_loop c force raises [] p = p
  delete_loop c force raises (id ∷ ids) (stopped s response) = stopped s response
  delete_loop c force raises (id ∷ ids) (going s errors) =
      delete_loop c force raises ids (delete_one c force raises id s errors)

  -- the commit behind the loop, which may raise as well
  unfoldable pub finish : Bool → Progress db.State → Session db.State × Response
  finish commits (stopped s response) = (s, response)
  finish commits (going s errors) =
      if commits
      then (commit s, record { code = if errors == 0 then 204 else 404; id = none; message = "" })
      else (rollback s, db_abort)

  unfoldable pub delete :
      Controller
      → (String → Bool)
      → Bool
      → List String
      → Bool
      → Session db.State
      → Session db.State × Response
  delete c raises commits ids force s = finish commits (delete_loop c force raises ids (going s 0))
