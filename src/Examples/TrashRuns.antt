-- ===== src/Examples/TrashRuns.antt =====
-- Restoring and purging locations.
use Prim.Native.String.{String}
use apicrud.Prelude.{
  false, Option, none, some, [], ◌∷◌, ◌≡◌, ◌⊎◌, refl, if◌then◌else◌, ◌==◌, text_eq,
}
use apicrud.Access.{AccessControl, Row}
use apicrud.Database.{Session}
use apicrud.Database.Memory.{Memory, memory}
use apicrud.Crud.{Controller, text}
use apicrud.Trash.{controller_of, restore}
use apicrud.Trash.Safety.{May, restore_safe}

abbrev owner : AccessControl
owner = record {
  policies = ("location", []) ∷ [];
  privacy_levels = [];
  private_res = record { resource = "list"; attr = "list_id" };
  resource = some "location";
  model_has_privacy = false;
  auth = some ("user" ∷ []);
  uid = some "u-1";
  account_id = none;
  auth_method = none;
  identity = none;
  apikey_id = none;
  auth_ids = [];
}

abbrev locations : Controller
locations = record {
  resource = "location";
  acc = owner;
  rest_related = [];
  person_exists = λ identity. false;
}

abbrev only_locations : String → Option Controller
only_locations resource = if resource == "Location" then some locations else none

abbrev gone : Row
gone = record { id = "x-1"; columns = ("status", some "disabled") ∷ []; owner_referrer = none }

abbrev tables : Memory
tables = record { rows = λ id. some gone; links = λ id attr. [] }

abbrev fresh : Session Memory
fresh = record { now = tables; saved = tables }

restore_safe_example :
    (memory.row
        (restore only_locations memory "location-x-1"
          (("status", text "active") ∷ [])
          false
          fresh).0.saved
        "Location-x-1"
      ≡ some gone)
    ⊎ May only_locations memory
        (controller_of only_locations false "location-x-1")
        "Location-x-1"
        (some gone)
restore_safe_example =
    restore_safe only_locations memory "location-x-1" "Location-x-1"
      (("status", text "active") ∷ []) false fresh refl
