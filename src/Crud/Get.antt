-- ===== src/Crud/Get.antt =====
-- apicrud/basic_crud.py: BasicCRUD.get. The proofs are in the module below.
pub mod Readable
use apicrud.Prelude.{
  ℕ, Bool, true, false, not, ◌&&◌, ◌||◌, Option, none, some, String, List, [], ◌∷◌, Char,
  if◌then◌else◌, ◌==◌, text_eq, char_eq, option_eq,
}
use apicrud.Python.Result.{Exn, Result, ok, err, ◌>>=◌, or_raise}
use apicrud.Python.Text.{truthy}
use apicrud.Python.Sort.{sort_chars, text_of}
use apicrud.Python.PySet.{contains, minus}
use apicrud.Python.Dict.{Dict, lookup, insert, remove}
use apicrud.Access.{AccessControl, Row}
use apicrud.Access.Rbac.{roles_of, rbac_permissions}
use apicrud.Crud.{Response, Controller}

-- hasattr(self.model, …), and what the relations of the record give
pub record Relations : Type 0 where
  pub has_event_id : Bool
  pub has_category_id : Bool
  pub owner_name : Option (Option String)
  pub category_name : Option String

-- the geo value of a record, with the longitude and the latitude: as they are, or rounded to four
-- decimals
pub data Place : Type 0 where
  nowhere : Place
  exact : String → String → Place
  rounded : String → String → Place

-- a record; a record that can have a place; or an error
pub data Found : Type 0 where
  shown : Dict (Option String) → Found
  located : Place → Dict (Option String) → Found
  error : Response → Found

abbrev with_owner : Option (Option String) → Dict (Option String) → Dict (Option String)
with_owner none cols = cols
with_owner (some name) cols = insert "owner" name cols

-- `hasattr(self.model, 'category_id') and retval['category_id']`
abbrev with_category :
    Relations → Option (Option String) → Dict (Option String) → Dict (Option String)
with_category rel none cols = cols
with_category rel (some category_id) cols =
    if rel.has_category_id && truthy category_id
    then insert "category" rel.category_name cols
    else cols

-- `'modified' in retval and not retval['modified']`
abbrev without_modified : Option (Option String) → Dict (Option String) → Dict (Option String)
without_modified none cols = cols
without_modified (some modified) cols = if truthy modified then cols else remove "modified" cols

unfoldable pub described : Relations → Dict (Option String) → Dict (Option String)
described rel cols =
    let owned = with_owner rel.owner_name cols in
    let sorted = with_category rel (lookup "category_id" owned) owned in
    without_modified (lookup "modified" sorted) sorted

abbrev first_id : List String → Option String
first_id [] = none
first_id (id ∷ ids) = some id

-- acc.rbac_permissions(query=query, membership=acc.primary_resource, id=eid) - set('c')
unfoldable pub permissions : Controller → Relations → Row → Result (List Char)
permissions c rel row = do
  rbac ← rbac_permissions c.person_exists c.acc (record {
    query = some (some row);
    owner_uid = none;
    membership = some c.acc.private_res.resource;
    id = if rel.has_event_id then none else first_id c.acc.auth_ids;
    privacy = none;
  })
  ok (minus rbac ("c" ∷ []))

abbrev has_roles : List String → Bool
has_roles [] = false
has_roles (role ∷ roles) = true

abbrev pub access_denied : Option String → ℕ → Found
access_denied id code = error (record { code = code; id = id; message = "access denied" })

-- record.get('geolat') and record.get('geolong'), which are whole numbers
abbrev pub coordinates : Option (Option String) → Option (Option String) → Option (String × String)
coordinates (some (some long)) (some (some lat)) =
    if long == "0" || lat == "0" then none else some (long, lat)
coordinates (some (some long)) (some none) = none
coordinates (some (some long)) none = none
coordinates (some none) lat = none
coordinates none lat = none

abbrev pub coordinates_of : Dict (Option String) → Option (String × String)
coordinates_of cols = coordinates (lookup "geolong" cols) (lookup "geolat" cols)

-- the two calls of `pop`
abbrev pub popped : Dict (Option String) → Dict (Option String)
popped cols = remove "geolat" (remove "geolong" cols)

-- if 'address' in record: record['address'] = ''
abbrev pub without_address : Option (Option String) → Dict (Option String) → Dict (Option String)
without_address none cols = cols
without_address (some address) cols = insert "address" (some "") cols

unfoldable pub exactly : Option (String × String) → Dict (Option String) → Found
exactly none cols = located nowhere (popped cols)
exactly (some (long, lat)) cols = located (exact long lat) (popped cols)

unfoldable pub roughly : Option (String × String) → Dict (Option String) → Found
roughly none cols = located nowhere (popped cols)
roughly (some (long, lat)) cols =
    located (rounded long lat) (popped (without_address (lookup "address" cols) cols))

-- `if access == 'r' or record['uid'] == AccessControl().uid`
unfoldable pub with_privacy : AccessControl → Bool → Dict (Option String) → Result Found
with_privacy acc true cols = ok (exactly (coordinates_of cols) cols)
with_privacy acc false cols = do
  uid ← or_raise (lookup "uid" cols) Exn.key_error
  ok (
      if uid == acc.uid
      then exactly (coordinates_of cols) cols
      else roughly (coordinates_of cols) cols)

-- the answer for a record that can have a place, by its privacy
unfoldable pub place_answer :
    AccessControl → Bool → Option (Option String) → Dict (Option String) → Result Found
place_answer acc readable none cols = err Exn.key_error
place_answer acc readable (some privacy) cols =
    if privacy == some "secret" && not readable
    then ok (access_denied none 403)
    else with_privacy acc readable cols

unfoldable pub answer :
    Controller → String → Bool → Option (Option String) → Dict (Option String) → Result Found
answer c id readable (some geolat) cols = place_answer c.acc readable (lookup "privacy" cols) cols
answer c id true none cols = ok (shown cols)
answer c id false none cols =
    ok (access_denied (some id) (if has_roles (roles_of c.acc) then 403 else 401))

-- the record with its rbac, as the method builds it
abbrev pub with_rbac : Relations → Row → List Char → Dict (Option String)
with_rbac rel row rbac =
    insert "rbac" (some (text_of (sort_chars rbac))) (described rel row.columns)

unfoldable pub get_row : Controller → Relations → String → Row → Result Found
get_row c rel id row = do
  rbac ← permissions c rel row
  let cols = with_rbac rel row rbac
  answer c id (contains "r" rbac) (lookup "geolat" cols) cols

-- what the query by id finds
unfoldable pub get : Controller → Relations → String → Option Row → Result Found
get c rel id none = ok (error (record { code = 404; id = some id; message = "not found" }))
get c rel id (some row) = get_row c rel id row
