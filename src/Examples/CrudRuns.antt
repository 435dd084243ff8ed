-- ===== src/Examples/CrudRuns.antt =====
-- Deletes and updates of locations, for a caller who may do everything and for one who may nothing.
use Prim.Native.String.{String}
use apicrud.Prelude.{
  Bool, true, false, Option, none, some, List, [], ◌∷◌, ◌≡◌, ◌⊎◌, refl, arith, if◌then◌else◌,
  text_eq, char_eq, Char,
}
use apicrud.Python.Result.{ok}
use apicrud.Python.Text.{show, truthy, in_text, split, glue, to_list, replace}
use apicrud.Python.Format.{format}
use apicrud.Python.Regex.{re_fullmatch}
use apicrud.Python.PySet.{contains, union, minus}
use apicrud.Python.Dict.{Dict, lookup, insert, remove, merge}
use apicrud.Python.Sort.{text_of, sort_chars}
use apicrud.Access.{Policy, AccessControl, Row}
use apicrud.Access.Rbac.{
  column, record_owner, read_record, contact_case, is_shared, shared_role, env_of, role_text,
  match_id, resource_matches, split_head, special_case, applies, role_loop, policy_step,
  policy_loop, lookup_policies, or_defaults, rbac_permissions, with_permission,
}
use apicrud.Database.{Session}
use apicrud.Database.Memory.{Memory, memory}
use apicrud.Crud.{Controller, Item, text, ids, fine, may, denied}
use apicrud.Crud.Delete.{delete_one, delete_loop, finish, delete}
use apicrud.Crud.Delete.Safety.{delete_atomic, delete_safe}
use apicrud.Crud.Related.{exceeds, update_related}
use apicrud.Crud.Related.Match.{related-update_related}
use apicrud.Crud.Update.{update}
use apicrud.Crud.Update.Safety.{update_safe}
use apicrud.Crud.Get.{
  Relations, rounded, located, described, permissions, roughly, with_privacy, place_answer, answer,
  with_rbac, get_row, get,
}
use apicrud.Crud.Get.Readable.{IsGuarded, get-IsGuarded}
use apicrud.Crud.Update.Unchecked.{members_unchecked}

abbrev everything : Policy
everything = record {
  principal = "admin";
  resource = "location:.*";
  actions = "c" ∷ "d" ∷ "r" ∷ "u" ∷ [];
}

abbrev caller : List Policy → AccessControl
caller policies = record {
  policies = ("location", policies) ∷ [];
  privacy_levels = "public" ∷ "invitee" ∷ "member" ∷ "manager" ∷ "secret" ∷ [];
  private_res = record { resource = "list"; attr = "list_id" };
  resource = some "location";
  model_has_privacy = true;
  auth = some ("admin" ∷ []);
  uid = some "u-1";
  account_id = none;
  auth_method = none;
  identity = none;
  apikey_id = none;
  auth_ids = [];
}

abbrev controller : List Policy → Controller
controller policies = record {
  resource = "location";
  acc = caller policies;
  rest_related = "members" ∷ [];
  person_exists = λ identity. false;
}

abbrev home : Row
home = record {
  id = "x-1";
  columns = ("uid", some "u-2") ∷ ("name", some "Home") ∷ ("status", some "active") ∷ [];
  owner_referrer = none;
}

abbrev tables : Memory
tables = record {
  rows = λ id. if contains id ("x-1" ∷ []) then some home else none;
  links = λ id attr. "p-1" ∷ [];
}

abbrev fresh : Session Memory
fresh = record { now = tables; saved = tables }

abbrev never : String → Bool
never id = false

abbrev at_second : String → Bool
at_second id = contains id ("x-2" ∷ [])

delete_atomic_example :
    (delete memory (controller []) at_second true ("x-2" ∷ "x-1" ∷ []) false fresh).0.saved ≡ tables
unfolding delete finish delete_loop delete_one contains
delete_atomic_example =
    delete_atomic memory (controller []) false at_second ("x-2" ∷ "x-1" ∷ []) true fresh
      (omega arith) (omega arith)

delete_safe_example :
    (memory.row
        (delete memory (controller (everything ∷ [])) never true ("x-1" ∷ []) true fresh).0.saved
        "x-1"
      ≡ some home)
    ⊎ ((may (controller (everything ∷ [])) "d" (some home) ≡ ok true)
        × (contains {A = String} "x-1" ("x-1" ∷ []) ≡ true))
unfolding contains
delete_safe_example =
    delete_safe memory (controller (everything ∷ [])) true never ("x-1" ∷ []) true fresh "x-1" refl

related-update_related_example :
    ((update_related memory (λ m. true) "x-1" "members" ("p-2" ∷ []) none fresh).1
      ≡ ok (record { code = 200; id = some "x-1"; message = "ok" }))
    × ((n : String)
        → contains n (
            memory.related
              (update_related memory (λ m. true) "x-1" "members" ("p-2" ∷ []) none fresh).0.saved
              "x-1"
              "members")
          ≡ contains n ("p-2" ∷ []))
unfolding exceeds contains
related-update_related_example =
    related-update_related memory (λ m. true) "x-1" "members" ("p-2" ∷ []) none fresh home refl refl
      (λ m listed. refl)

abbrev no_dates : Bool → String → Option String
no_dates fractional date = none

abbrev rename : Dict Item
rename = ("name", text "Work") ∷ []

update_safe_example :
    (memory.row
        (update memory
          (λ attr m. true)
          no_dates
          "2026-01-01"
          (controller [])
          "x-1"
          rename
          "u"
          []
          fine
          fresh).0.saved
        "x-1"
      ≡ some home)
    ⊎ ((may (controller []) "u" (some home) ≡ ok true) × (◌≡◌ {A = String} "x-1" "x-1"))
unfolding contains
update_safe_example =
    update_safe memory (λ attr m. true) no_dates "2026-01-01" (controller []) "x-1" "u" [] fine
      fresh "x-1" rename refl

abbrev new_members : Dict Item
new_members = ("members", ids ("p-9" ∷ [])) ∷ []

members_unchecked_example :
    ((update memory
        (λ attr m. true)
        no_dates
        "2026-01-01"
        (controller [])
        "x-1"
        new_members
        "u"
        []
        fine
        fresh).1
      ≡ ok (denied "x-1"))
    × ((n : String)
        → contains n (
            memory.related
              (update memory
                (λ attr m. true)
                no_dates
                "2026-01-01"
                (controller [])
                "x-1"
                new_members
                "u"
                []
                fine
                fresh).0.saved
              "x-1"
              "members")
          ≡ contains n ("p-9" ∷ []))
unfolding contains lookup exceeds with_permission rbac_permissions read_record record_owner
    contact_case is_shared policy_loop lookup_policies or_defaults minus truthy column
members_unchecked_example =
    members_unchecked memory (λ attr m. true) no_dates "2026-01-01" (controller []) "x-1" "members"
      "u" [] fine fresh home ("p-9" ∷ []) new_members refl refl (refl, refl, refl) refl refl refl
      refl (λ m listed. refl) refl

abbrev plain : Relations
plain = record {
  has_event_id = false;
  has_category_id = false;
  owner_name = none;
  category_name = none;
}

-- a place of another user
abbrev cafe : Row
cafe = record {
  id = "x-2";
  columns =
      ("uid", some "u-2")
      ∷ ("privacy", some "member")
      ∷ ("address", some "1 Main St")
      ∷ ("geolat", some "407127281")
      ∷ ("geolong", some "-740060152")
      ∷ [];
  owner_referrer = none;
}

abbrev blurred : Dict (Option String)
blurred =
    ("uid", some "u-2") ∷ ("privacy", some "member") ∷ ("address", some "") ∷ ("rbac", some "") ∷ []

get-IsGuarded_example :
    (rbac : List Char) × (permissions (controller []) plain cafe ≡ ok rbac)
    × IsGuarded
        (caller [])
        (contains {A = Char} "r" rbac)
        (with_rbac plain cafe rbac)
        (located (rounded "-740060152" "407127281") blurred)
unfolding get get_row permissions described answer lookup insert merge contains with_permission
    rbac_permissions read_record record_owner contact_case is_shared shared_role env_of role_text
    match_id resource_matches split_head special_case applies role_loop policy_step policy_loop
    lookup_policies or_defaults union minus show truthy in_text split glue to_list replace format
    re_fullmatch column place_answer with_privacy roughly remove text_of sort_chars
get-IsGuarded_example =
    get-IsGuarded (controller []) plain "x-2" cafe
      (located (rounded "-740060152" "407127281") blurred) refl
