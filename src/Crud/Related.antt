-- ===== src/Crud/Related.antt =====
-- apicrud/basic_crud.py: BasicCRUD._update_related. The proofs are in the module below.
pub mod Match
use apicrud.Prelude.{
  ℕ, zero, suc, Bool, true, false, not, ◌&&◌, Option, none, some, String, List, [], ◌∷◌,
  if◌then◌else◌, ◌==◌, text_eq, number_eq, length, ltb,
}
use apicrud.Python.Result.{Exn, Result, ok, err}
use apicrud.Python.PySet.{contains, minus, union}
use apicrud.Access.{Row}
use apicrud.Database.{Tables, Session, commit, rollback}
use apicrud.Crud.{Response}

-- limit and len(related_ids) > limit
unfoldable pub exceeds : Option ℕ → List String → Bool
exceeds none ids = false
exceeds (some limit) ids = not (limit == 0) && ltb limit (length ids)

-- `exists_in m` says whether the related table has the record: `.one()` raises NoResultFound
-- otherwise
module _ (db : Tables) (exists_in : String → Bool) (id attr : String) where
  -- append(…) for each missing member
  unfoldable pub relate_all : List String → db.State → db.State × Result (Unit {0})
  relate_all [] t = (t, ok tt)
  relate_all (m ∷ ms) t =
      let rest = relate_all ms (db.relate t id attr m) in
      if exists_in m then rest else (t, err Exn.no_result_found)

  -- remove(…) for each removed member
  unfoldable pub unrelate_all : List String → db.State → db.State × Result (Unit {0})
  unrelate_all [] t = (t, ok tt)
  unrelate_all (m ∷ ms) t =
      let rest = unrelate_all ms (db.unrelate t id attr m) in
      if exists_in m then rest else (t, err Exn.no_result_found)

  abbrev pub linked :
      db.State → Result (Unit {0}) → Session db.State → Session db.State × Result Response
  linked t (err e) s = (record s { now = t }, err e)
  linked t (ok u) s =
      (commit (record s { now = t }), ok (record { code = 200; id = some id; message = "ok" }))

  -- the second loop, behind the first
  unfoldable pub unlink_then :
      List String → db.State × Result (Unit {0}) → db.State × Result (Unit {0})
  unlink_then removed (t, err e) = (t, err e)
  unlink_then removed (t, ok u) = unrelate_all removed t

  -- set(related_ids) - set(current) and set(current) - set(related_ids), in the order of the lists
  unfoldable pub change_members :
      List String → List String → db.State → db.State × Result (Unit {0})
  change_members current wanted t =
      unlink_then (minus (union [] current) wanted) (relate_all (minus (union [] wanted) current) t)

  unfoldable pub update_found :
      Option Row → List String → Session db.State → Session db.State × Result Response
  update_found none wanted s = (s, err Exn.no_result_found)
  update_found (some row) wanted s =
      let (t, result) = change_members (db.related s.now id attr) wanted s.now in linked t result s

  unfoldable pub update_related :
      List String → Option ℕ → Session db.State → Session db.State × Result Response
  update_related wanted limit s =
      if exceeds limit wanted
      then (s, ok (record { code = 405; id = none; message = "Limit exceeded" }))
      else update_found (db.row s.now id) wanted s
