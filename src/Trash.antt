-- ===== src/Trash.antt =====
-- apicrud/trashcan.py: Trashcan.update and Trashcan.delete. The proofs are in the module below. The
-- records of all resources are the rows of one interface, by the name of the model and the id of the
-- record.
pub mod Safety
use Prim.Native.String.{String, char_at}
use apicrud.Prelude.{
  ℕ, ◌-◌, ◌&&◌, Bool, true, false, code, leb, Option, none, some, List, [], ◌∷◌, Char, ◌⧺◌,
  if◌then◌else◌, ◌==◌, text_eq,
}
use apicrud.Python.Result.{Exn, Result, ok, err, ◌>>=◌, or_raise}
use apicrud.Python.Text.{same_char}
use apicrud.Python.Dict.{Dict, lookup}
use apicrud.Access.{Row}
use apicrud.Utils.{lower_text}
use apicrud.Database.{Tables, Session}
use apicrud.Crud.{Response, Controller, Item, null, Outcome, fine, broken, may}
use apicrud.Crud.Delete.{Progress, stopped, going, delete_one, finish}
use apicrud.Crud.Update.{write_permitted}

abbrev cons_first : Char → Option (String × String) → Option (String × String)
cons_first c none = none
cons_first c (some (resource, record_id)) = some (String.◌∷◌ c resource, record_id)

-- resource, record_id = id.split('-', maxsplit=1); `none` is a ValueError
unfoldable pub split_id : String → Option (String × String)
split_id String.[] = none
split_id (String.◌∷◌ c s) =
    let rest = split_id s in if same_char c "-" then some ("", s) else cons_first c rest

-- c.upper(), for an ASCII character
unfoldable pub upper_char : Char → Char
upper_char c =
    if leb 97 (code c) && leb (code c) 122
    then char_at "ABCDEFGHIJKLMNOPQRSTUVWXYZ" (code c - 97)
    else c

-- resource.capitalize(), for an ASCII text
unfoldable pub capitalize : String → String
capitalize String.[] = ""
capitalize (String.◌∷◌ c s) = String.◌∷◌ (upper_char c) (lower_text s)

-- the name of the class in models; `purges` is the special case of Trashcan.delete
unfoldable pub model_name : (purges : Bool) → String → String
model_name false resource = capitalize resource
model_name true resource = if resource == "apikey" then "APIkey" else capitalize resource

-- `controllers` gives the model of that name; without one, getattr raises an AttributeError. The row is
-- the one under the name of the model and the id of the record, however the resource is written.
module _ (controllers : String → Option Controller) where
  unfoldable pub controller_of : (purges : Bool) → String → Result (String × Controller)
  controller_of purges id = do
    (resource, record_id) ← or_raise (split_id id) Exn.value_error
    let name = model_name purges resource
    c ← or_raise (controllers name) Exn.attribute_error
    ok (name ⧺ ("-" ⧺ record_id), c)

  -- an answer that names a record names it by the id of the request
  abbrev relabel : String → Option String → Option String
  relabel id none = none
  relabel id (some key) = some id

  abbrev pub named : String → Response → Response
  named id response = record response { id = relabel id response.id }

  module _ (db : Tables) where
    -- the statements in the `try`: whatever they raise ends in db_abort
    unfoldable pub restore_row :
        String → Dict Item → Bool → Controller → Session db.State → Session db.State × Response
    restore_row key body raises c s =
        let found = db.row s.now key in
        write_permitted db key (if raises then broken else fine)
          (("status", elim (lookup "status" body) [ none ↦ null | some status ↦ status ]) ∷ [])
          (may c "d" found) found s

    unfoldable pub restore_with :
        String
        → Dict Item
        → Bool
        → Result (String × Controller)
        → Session db.State
        → Session db.State × Result Response
    restore_with id body raises (err e) s = (s, err e)
    restore_with id body raises (ok (key, c)) s =
        let (s', response) = restore_row key body raises c s in (s', ok (named id response))

    -- Trashcan.update
    unfoldable pub restore :
        String → Dict Item → Bool → Session db.State → Session db.State × Result Response
    restore id body raises s = restore_with id body raises (controller_of false id) s

    abbrev pub renamed : String → Progress db.State → Progress db.State
    renamed id (stopped s response) = stopped s (named id response)
    renamed id (going s errors) = going s errors

    -- one id of Trashcan.delete, whose query deletes the row
    unfoldable pub purge_one :
        (String → Bool)
        → String
        → Result (String × Controller)
        → Session db.State
        → ℕ
        → Result (Progress db.State)
    purge_one raises id (err e) s errors = err e
    purge_one raises id (ok (key, c)) s errors =
        ok (renamed id (delete_one db c true (λ k. raises id) key s errors))

    -- the loop, with the session that an exception leaves
    unfoldable pub purge_loop :
        (String → Bool)
        → List String
        → Session db.State
        → Result (Progress db.State)
        → Session db.State × Result (Progress db.State)
    purge_loop raises ids t (err e) = (t, err e)
    purge_loop raises [] t (ok p) = (t, ok p)
    purge_loop raises (id ∷ ids) t (ok (stopped s response)) = (s, ok (stopped s response))
    purge_loop raises (id ∷ ids) t (ok (going s errors)) =
        purge_loop raises ids s (purge_one raises id (controller_of true id) s errors)

    abbrev finished :
        Bool → Session db.State × Result (Progress db.State) → Session db.State × Result Response
    finished commits (t, err e) = (t, err e)
    finished commits (t, ok p) = let (s, response) = finish db commits p in (s, ok response)

    -- Trashcan.delete
    unfoldable pub purge :
        (String → Bool) → Bool → List String → Session db.State → Session db.State × Result Response
    purge raises commits ids s = finished commits (purge_loop raises ids s (ok (going s 0)))
