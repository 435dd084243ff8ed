-- ===== src/Examples/AccessRuns.antt =====
-- rbac.yaml of example/, in part, and requests of a user, of an administrator and of nobody.
use Prim.Native.String.{String}
use apicrud.Prelude.{
  Any, Bool, true, false, Option, none, some, List, [], ◌∷◌, Char, ◌≡◌, refl, ◌⊎◌, inl, inr, eq_iff,
  char_eq,
}
use apicrud.Python.Result.{ok}
use apicrud.Python.Text.{show, truthy, in_text, split, glue}
use apicrud.Python.Format.{format}
use apicrud.Python.Regex.{re_fullmatch}
use apicrud.Python.PySet.{contains, union, minus}
use apicrud.Access.{Policy, AccessControl}
use apicrud.Access.Rbac.{
  record_owner, read_record, contact_case, is_shared, shared_role, env_of, role_text, match_id,
  resource_matches, split_head, special_case, applies, role_loop, policy_step, policy_loop,
  lookup_policies, or_defaults, rbac_permissions, Request,
}
use apicrud.Access.Rbac.Loop.{Granted, Wildcard}
use apicrud.Access.Rbac.Sound.{rbac_permissions_sound, rbac_permissions_complete}
use apicrud.Access.Rbac.Owner.{user_policy}
use apicrud.Access.ApiKey.{
  KeyRecord, is_expired, is_marked, is_match, matching, owner_of, apikey_verify,
}
use apicrud.Access.ApiKey.Verified.{IsValid, apikey_verify-IsValid}
use apicrud.Access.Filter.{Entry}

abbrev cdru : List Char
cdru = "c" ∷ "d" ∷ "r" ∷ "u" ∷ []

abbrev admin_policy : Policy
admin_policy = record { principal = "admin"; resource = "location:.*"; actions = cdru }

abbrev own_policy : Policy
own_policy = user_policy "location" cdru

abbrev member_policy : Policy
member_policy = record {
  principal = "list-{list_id}-member";
  resource = "location:{list_id}";
  actions = "r" ∷ [];
}

abbrev policies : List Policy
policies = admin_policy ∷ own_policy ∷ member_policy ∷ []

abbrev caller : Option (List String) → Option String → AccessControl
caller auth uid = record {
  policies = ("location", policies) ∷ [];
  privacy_levels = "public" ∷ "invitee" ∷ "member" ∷ "manager" ∷ "secret" ∷ [];
  private_res = record { resource = "list"; attr = "list_id" };
  resource = some "location";
  model_has_privacy = true;
  auth = auth;
  uid = uid;
  account_id = none;
  auth_method = none;
  identity = none;
  apikey_id = none;
  auth_ids = [];
}

abbrev user : AccessControl
user = caller (some ("user" ∷ [])) (some "u-1")

abbrev nobody : AccessControl
nobody = caller none none

abbrev request_of : Option String → Request
request_of owner = record {
  query = none;
  owner_uid = owner;
  membership = none;
  id = none;
  privacy = some "secret";
}

abbrev no_person : Option String → Bool
no_person info = false

own_record : rbac_permissions no_person user (request_of (some "u-1")) ≡ ok cdru
unfolding rbac_permissions read_record contact_case is_shared lookup_policies policy_loop
    policy_step role_loop applies resource_matches special_case split_head role_text match_id env_of
    or_defaults minus union contains show truthy in_text split glue format re_fullmatch record_owner
    shared_role
own_record = refl

other_record : rbac_permissions no_person user (request_of (some "u-2")) ≡ ok []
unfolding rbac_permissions read_record contact_case is_shared lookup_policies policy_loop
    policy_step role_loop applies resource_matches special_case split_head role_text match_id env_of
    or_defaults minus union contains show truthy in_text split glue format re_fullmatch record_owner
    shared_role
other_record = refl

abbrev own_request : Request
own_request = request_of (some "u-1")

own_contact :
    contact_case no_person user
      (read_record user own_request)
      (read_record user own_request).owner_uid
    ≡ ok (some "u-1", [])
unfolding contact_case read_record truthy
own_contact = refl

user_policies : lookup_policies user.resource user.policies ≡ ok policies
unfolding lookup_policies
user_policies = refl

own_policy_grants :
    Granted user
      (read_record user own_request).membership
      (read_record user own_request).id
      (some "u-1")
      "r"
      policies
unfolding applies resource_matches role_text match_id env_of contains show in_text format
    re_fullmatch read_record truthy special_case split_head split glue
own_policy_grants = inr (inl ((λ e. cc ((eq_iff "user/{uid}" ".*").1 e)), inl refl, refl))

rbac_permissions_sound_example :
    (Granted user
        (read_record user own_request).membership
        (read_record user own_request).id
        (some "u-1")
        "r"
        policies
      × (contains {A = Char} "r" [] ≡ false))
    ⊎ (Wildcard "r" policies
        ⊎ ((◌≡◌ {A = Char} "r" "r") × (is_shared user (read_record user own_request) ≡ true)))
unfolding contains
rbac_permissions_sound_example =
    rbac_permissions_sound no_person user own_request "r" own_contact user_policies own_record refl

rbac_permissions_complete_example : contains "r" cdru ≡ true
unfolding contains
rbac_permissions_complete_example =
    rbac_permissions_complete no_person user own_request "r" own_contact user_policies own_record
      own_policy_grants refl

abbrev other_entry : Entry
other_entry = record { privacy = some "secret"; uid = some "u-2"; referrer = none }

abbrev key : KeyRecord
key = record {
  uid = "u-1";
  prefix = "Kpref1xx";
  hashvalue = "s3cret";
  status = "active";
  scopes = [];
  last_used = none;
  expires = some 500;
}

apikey_verify-IsValid_example : Any (IsValid 100 "Kpref1xx" "s3cret" ("u-1", [])) (key ∷ [])
unfolding apikey_verify matching is_match is_marked is_expired owner_of
apikey_verify-IsValid_example =
    apikey_verify-IsValid (λ secret. secret) true 100 "Kpref1xx" "s3cret" (key ∷ []) ("u-1", [])
      refl
