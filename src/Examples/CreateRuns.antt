-- ===== src/Examples/CreateRuns.antt =====
-- A location that is created with a member, and a contact whose address changes.
use Prim.Native.String.{String}
use apicrud.Prelude.{
  true, false, Option, none, some, [], ◌∷◌, ◌≡◌, ◌⊎◌, refl, if◌then◌else◌, ◌==◌, text_eq, eq_refl,
  ◌⧺◌,
}
use apicrud.Prelude.Int.{pos}
use apicrud.Python.Result.{Exn, Result, ok, err}
use apicrud.Python.Text.{show, truthy, last_chars, in_text, split, glue, to_list, replace}
use apicrud.Python.Format.{format}
use apicrud.Python.Regex.{re_fullmatch}
use apicrud.Python.Scan.{lower, one_of, any_char}
use apicrud.Python.Sort.{text_of}
use apicrud.Python.PySet.{contains, union, minus}
use apicrud.Python.Dict.{Dict, lookup, insert, remove}
use apicrud.Access.{Row}
use apicrud.Access.Rbac.{
  column, record_owner, read_record, contact_case, is_shared, shared_role, env_of, role_text,
  match_id, resource_matches, split_head, special_case, applies, role_loop, policy_step,
  policy_loop, lookup_policies, or_defaults, rbac_permissions, with_permission, contact_owner,
  deny_delete,
}
use apicrud.Grants.{number}
use apicrud.Database.{Session}
use apicrud.Database.Memory.{Memory, memory}
use apicrud.Crud.{Controller, Response, Item, text, ids, columns_of, fine, db_abort}
use apicrud.Crud.Update.{parsed_expiry, with_expiry, renames}
use apicrud.Crud.Patterns.{
  stripped, right_space, left_space, is_space, email_match, in_domain, in_user, rest_of_domain,
}
use apicrud.Crud.Checks.{passed, check_type, check_mail, check_email, info_of}
use apicrud.Crud.Contact.{
  People, person_of, identity_item, with_identity, sync_person, unconfirmed, write_contact,
  contact_permitted, update_checked, update_contact,
}
use apicrud.Utils.{
  identity_normalize, untagged, joined_lower, is_gmail, at_gmail, lower_char, lower_text,
}
use apicrud.Crud.Contact.Sync.{Updated, update_contact-Updated}
use apicrud.Crud.Prepare.{
  Model, Making, inserts, with_uid, grant_name, without_related, related_items, with_apikey,
  related_checked, at_limit, over_limit, unless_over, with_status, with_limit, categorized,
  if_permitted, if_dated, prepare, prepared_body,
}
use apicrud.Crud.Create.{Inserts, create}
use apicrud.Crud.Create.Granted.{Granted, create-Granted}
use apicrud.Crud.Create.Partial.{create_partial}

abbrev controller : String → Controller
controller resource = record {
  resource = resource;
  acc = record {
    policies =
        (
          resource,
          record { principal = "admin"; resource = resource ⧺ ":.*"; actions = "c" ∷ "u" ∷ [] }
              ∷ [],
        )
        ∷ [];
    privacy_levels = [];
    private_res = record { resource = "list"; attr = "list_id" };
    resource = some resource;
    model_has_privacy = false;
    auth = some ("admin" ∷ []);
    uid = some "u-1";
    account_id = none;
    auth_method = none;
    identity = none;
    apikey_id = none;
    auth_ids = [];
  };
  rest_related = "members" ∷ [];
  person_exists = λ identity. false;
}

abbrev inserted : String → Dict (Option String) → Row
inserted id cols = record { id = id; columns = cols; owner_referrer = none }

abbrev insert_into : Memory → String → Dict (Option String) → Memory
insert_into t k cols = record t { rows = λ j. if k == j then some (inserted k cols) else t.rows j }

abbrev inserts_into : Inserts memory
inserts_into = record {
  insert_row = insert_into;
  row-insert = λ t k cols. (inserted k cols, rw (eq_refl k) refl);
  row-insert_other = λ t k cols j other. rw other refl;
}

abbrev model : Model
model = record { has_uid = true; has_category = false; has_status = true; has_related = true }

abbrev making : Making
making = record {
  fresh_id = "x-9";
  now = "2026-01-01";
  strptime = λ exact t. none;
  contacts = some 0;
  primary_resource = none;
  counted = λ uid. 1;
  limit = ok (number (pos 20));
  default_grants = "locations" ∷ [];
  account_category = err Exn.no_result_found;
  event_category = err Exn.no_result_found;
  key_prefix = "";
  key_secret = "";
  key_hash = "";
  takes = λ body. true;
  exists_in = λ attr id. false;
}

abbrev body : Dict Item
body = ("name", text "Home") ∷ ("members", ids ("p-9" ∷ [])) ∷ []

abbrev tables : Memory
tables = record { rows = λ id. none; links = λ id attr. [] }

abbrev fresh : Session Memory
fresh = record { now = tables; saved = tables }

abbrev locations : Controller
locations = controller "location"

create-Granted_example :
    ((create locations model making [] memory inserts_into fine body fresh).0.saved.rows "x-1"
      ≡ none)
    × (((create locations model making [] memory inserts_into fine body fresh).0 ≡ fresh)
        ⊎ ((columns : Dict Item) × (prepared_body locations model making [] body ≡ inserts columns)
            × Granted locations model making [] columns))
unfolding contains
create-Granted_example =
    create-Granted locations model making [] memory inserts_into fine body fresh "x-1" refl refl
      refl

abbrev columns : Dict Item
columns =
    ("name", text "Home")
    ∷ ("id", text "x-9")
    ∷ ("created", text "2026-01-01")
    ∷ ("uid", text "u-1")
    ∷ ("status", text "active")
    ∷ []

prepared_columns : prepared_body locations model making [] body ≡ inserts columns
unfolding with_uid grant_name without_related with_apikey related_checked over_limit unless_over
    with_status with_limit categorized if_permitted if_dated prepare prepared_body parsed_expiry
    with_expiry lookup insert remove contains with_permission rbac_permissions read_record
    record_owner contact_case is_shared shared_role env_of role_text match_id resource_matches
    split_head special_case applies role_loop policy_step policy_loop lookup_policies or_defaults
    union minus show truthy in_text split glue to_list replace format re_fullmatch column last_chars
    at_limit
prepared_columns = refl

create_partial_example :
    ((create locations model making [] memory inserts_into fine body fresh).1
      ≡ ok (record { response = db_abort; apikey = none }))
    × ((row : Row) × ((create locations model making [] memory inserts_into fine body
              fresh).0.saved.rows
            "x-9"
          ≡ some row))
unfolding related_items lookup contains columns_of
create_partial_example =
    create_partial locations model making [] memory inserts_into body columns
      (("name", some "Home")
        ∷ ("id", some "x-9")
        ∷ ("created", some "2026-01-01")
        ∷ ("uid", some "u-1")
        ∷ ("status", some "active")
        ∷ [])
      "members" "p-9" [] fresh prepared_columns refl refl refl refl refl refl

abbrev address : Row
address = record {
  id = "x-1";
  columns = ("uid", some "u-1") ∷ ("info", some "old@b.net") ∷ ("type", some "email") ∷ [];
  owner_referrer = none;
}

abbrev book : Memory × People
book = (
  record { rows = λ id. if id == "x-1" then some address else none; links = λ id attr. [] },
  ("u-1", "old@b.net") ∷ [],
)

abbrev open_book : Session (Memory × People)
open_book = record { now = book; saved = book }

abbrev new_address : Dict Item
new_address = ("type", text "email") ∷ ("info", text "New@b.net") ∷ []

abbrev checked_address : Dict Item
checked_address = ("type", text "email") ∷ ("info", text "new@b.net") ∷ []

abbrev updating : Session (Memory × People) × Result Response
updating =
    update_contact memory (controller "contact") true "2026-01-01" "x-1" new_address open_book

address_checked : check_type (passed new_address) new_address ≡ ok (passed checked_address)
unfolding check_type check_mail check_email lookup insert info_of identity_normalize stripped
    text_of right_space left_space to_list is_space email_match untagged joined_lower split is_gmail
    at_gmail one_of contains lower in_domain in_user rest_of_domain any_char glue lower_char
    lower_text
address_checked = refl

address_updated : updating.1 ≡ ok (record { code = 200; id = some "x-1"; message = "updated" })
unfolding lookup insert person_of identity_item with_identity sync_person unconfirmed write_contact
    contact_permitted update_checked update_contact contains with_permission rbac_permissions
    read_record record_owner contact_case is_shared shared_role env_of role_text match_id
    resource_matches split_head special_case applies role_loop policy_step policy_loop
    lookup_policies or_defaults union minus show truthy in_text split glue to_list replace format
    re_fullmatch column renames columns_of contact_owner deny_delete
address_updated = rw address_checked refl

update_contact-Updated_example :
    Updated memory
      (controller "contact")
      "x-1"
      (insert "modified" (text "2026-01-01") checked_address)
      address
      book
      updating.0.saved
unfolding renames
update_contact-Updated_example =
    update_contact-Updated memory (controller "contact") true "2026-01-01" "x-1" new_address
      checked_address address open_book
      (record { code = 200; id = some "x-1"; message = "updated" }) address_checked
      (unfold lookup in refl) refl address_updated refl
