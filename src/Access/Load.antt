-- ===== src/Access/Load.antt =====
-- apicrud/access.py: load_rbac. The yaml parser is not modelled: the document is an argument.
use apicrud.Prelude.{
  Bool, true, false, Option, none, some, String, List, [], ◌∷◌, if◌then◌else◌, char_eq,
}
use apicrud.Python.Result.{Exn, Result, ok, ◌>>=◌, or_raise}
use apicrud.Python.Text.{replace, to_list}
use apicrud.Python.Format.{format}
use apicrud.Python.PySet.{union}
use apicrud.Access.{Policy, PrivateResource, Policies}

-- an entry of rbac['policies'][res], as yaml.safe_load returns it
pub record RawPolicy : Type 0 where
  pub principal : String
  pub resource : String
  pub actions : String

pub record RbacFile : Type 0 where
  pub policies : List (String × List RawPolicy)
  pub privacy_levels : List String
  pub private_resources : Option (List PrivateResource)

-- the module's LEVELS and POLICIES, and state.private_res
pub record RbacState : Type 0 where
  pub policies : Policies
  pub levels : List String
  pub private_res : List PrivateResource

-- `dict(principal=…, resource=…, actions=…)`
unfoldable pub load_policy : String → RawPolicy → Result Policy
load_policy res item = do
  principal ← or_raise (format [] item.principal) Exn.format_error
  resource ← or_raise (format (("resource", res) ∷ []) item.resource) Exn.format_error
  ok (record {
    principal = replace "*" ".*" principal;
    resource = replace "*" ".*" resource;
    actions = union [] (to_list item.actions);
  })

-- `for item in policy`
unfoldable pub load_policies : String → List RawPolicy → Result (List Policy)
load_policies res [] = ok []
load_policies res (item ∷ items) = do
  policy ← load_policy res item
  policies ← load_policies res items
  ok (policy ∷ policies)

-- `for res, policy in rbac['policies'].items()`
unfoldable pub load_resources : List (String × List RawPolicy) → Result Policies
load_resources [] = ok []
load_resources ((res, items) ∷ rest) = do
  policies ← load_policies res items
  more ← load_resources rest
  ok ((res, policies) ∷ more)

-- the state is assigned in the inner loop: not at all where no resource has a policy
unfoldable pub has_policy : List (String × List RawPolicy) → Bool
has_policy [] = false
has_policy ((res, []) ∷ rest) = has_policy rest
has_policy ((res, item ∷ items) ∷ rest) = true

abbrev default_private : Option (List PrivateResource) → List PrivateResource
default_private none = record { resource = "list"; attr = "list_id" } ∷ []
default_private (some given) = given

unfoldable pub load_rbac : RbacFile → RbacState → Result RbacState
load_rbac rbac st = do
  policies ← load_resources rbac.policies
  ok (
      if has_policy rbac.policies
      then record {
        policies = policies;
        levels = rbac.privacy_levels;
        private_res = default_private rbac.private_resources;
      }
      else st)
