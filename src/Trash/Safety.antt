-- ===== src/Trash/Safety.antt =====
-- apicrud/trashcan.py, Trashcan.update and Trashcan.delete: which rows they change.
use apicrud.Prelude.{
  ℕ, Bool, true, false, Option, String, List, [], ◌∷◌, ◌≡◌, ◌⊎◌, inl, inr, refl, ap, subst, text_eq,
  number_eq,
}
use apicrud.Python.Result.{Result, ok, err}
use apicrud.Python.Dict.{Dict}
use apicrud.Access.{Row}
use apicrud.Database.{Tables, Session}
use apicrud.Crud.{Response, Controller, Item, may}
use apicrud.Crud.Delete.{Progress, stopped, going}
use apicrud.Crud.Delete.Safety.{Unsaved, delete_one-Unsaved, finish_atomic}
use apicrud.Crud.Update.Safety.{write_permitted-Written}
use apicrud.Trash.{
  controller_of, restore_row, restore_with, restore, renamed, purge_one, purge_loop, finished,
  purge,
}

module _ (controllers : String → Option Controller) (db : Tables) where
  -- the row is the one that the id names, and the caller may delete it
  abbrev pub May : Result (String × Controller) → String → Option Row → Type 0
  May (err e) j found = ⊥
  May (ok (key, c)) j found = (may c "d" found ≡ ok true) × (key ≡ j)

  restore_with-May :
      (id j : String) (body : Dict Item) (raises : Bool) (found : Result (String × Controller))
      (s : Session db.State)
      → s.now ≡ s.saved
      → (db.row (restore_with controllers db id body raises found s).0.saved j ≡ db.row s.saved j)
        ⊎ May found j (db.row s.saved j)
  unfolding restore_with restore_row
  restore_with-May id j body raises (err e) s fresh = inl refl
  restore_with-May id j body raises (ok (key, c)) s fresh =
      write_permitted-Written db j s.saved c key "d" _ _ _ (db.row s.now key) s refl
        (ap (λ (u : db.State). db.row u j) fresh, refl)

  -- From a session without pending changes, restoring a record changes no other row than the one of
  -- the model and the record that its id names, and that one only if the caller may delete it.
  pub restore_safe :
      (id j : String) (body : Dict Item) (raises : Bool) (s : Session db.State)
      → s.now ≡ s.saved
      → (db.row (restore controllers db id body raises s).0.saved j ≡ db.row s.saved j)
        ⊎ May (controller_of controllers false id) j (db.row s.saved j)
  unfolding restore
  restore_safe id j body raises s fresh =
      restore_with-May id j body raises (controller_of controllers false id) s fresh

  -- while the loop runs, nothing is saved
  abbrev LoopUnsaved : db.State → Session db.State × Result (Progress db.State) → Type 0
  LoopUnsaved u (t, err e) = t.saved ≡ u
  LoopUnsaved u (t, ok p) = Unsaved db u p

  abbrev StepUnsaved : db.State → Result (Progress db.State) → Type 0
  StepUnsaved u (err e) = Unit {0}
  StepUnsaved u (ok p) = Unsaved db u p

  renamed-Unsaved :
      (u : db.State) (id : String) (p : Progress db.State)
      → Unsaved db u p
      → Unsaved db u (renamed controllers db id p)
  renamed-Unsaved u id (stopped s response) h = h
  renamed-Unsaved u id (going s errors) h = h

  purge_one-StepUnsaved :
      (raises : String → Bool) (id : String) (found : Result (String × Controller))
      (s : Session db.State) (errors : ℕ)
      → StepUnsaved s.saved (purge_one controllers db raises id found s errors)
  unfolding purge_one
  purge_one-StepUnsaved raises id (err e) s errors = tt
  purge_one-StepUnsaved raises id (ok (key, c)) s errors =
      renamed-Unsaved s.saved id _ (delete_one-Unsaved db c true (λ k. raises id) key s errors)

  purge_loop-LoopUnsaved :
      (raises : String → Bool) (ids : List String) (u : db.State) (t : Session db.State)
      (p : Result (Progress db.State))
      → t.saved ≡ u
      → StepUnsaved u p
      → LoopUnsaved u (purge_loop controllers db raises ids t p)
  unfolding purge_loop
  purge_loop-LoopUnsaved raises ids u t (err e) kept h = kept
  purge_loop-LoopUnsaved raises [] u t (ok p) kept h = h
  purge_loop-LoopUnsaved raises (id ∷ ids) u t (ok (stopped s response)) kept h = h
  purge_loop-LoopUnsaved raises (id ∷ ids) u t (ok (going s errors)) kept h =
      purge_loop-LoopUnsaved raises ids u s _ h (
        subst
          (λ (v : db.State).
            StepUnsaved v
              (purge_one controllers db raises id (controller_of controllers true id) s errors))
          h (purge_one-StepUnsaved raises id (controller_of controllers true id) s errors))

  -- the answer says that the records are gone
  abbrev pub IsPurged : Result Response → Type 0
  IsPurged (err e) = ⊥
  IsPurged (ok response) = (response.code ≡ 204) ⊎ (response.code ≡ 404)

  finished-saved :
      (commits : Bool) (u : db.State) (ended : Session db.State × Result (Progress db.State))
      → LoopUnsaved u ended
      → ¬ IsPurged (finished controllers db commits ended).1
      → (finished controllers db commits ended).0.saved ≡ u
  finished-saved commits u (t, err e) h failed = h
  finished-saved commits u (t, ok p) h failed =
      finish_atomic db commits u p h (λ c. failed (inl c)) (λ c. failed (inr c))

  -- Emptying the trashcan saves nothing unless it answers 204 or 404: one id that the caller may not
  -- delete, or that names no resource, and one exception, keep all the others as they were.
  pub purge_atomic :
      (raises : String → Bool) (commits : Bool) (ids : List String) (s : Session db.State)
      → ¬ IsPurged (purge controllers db raises commits ids s).1
      → (purge controllers db raises commits ids s).0.saved ≡ s.saved
  unfolding purge
  purge_atomic raises commits ids s =
      finished-saved commits s.saved _
        (purge_loop-LoopUnsaved raises ids s.saved s (ok (going s 0)) refl refl)
