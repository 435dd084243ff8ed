-- ===== src/Access/Rbac.antt =====
-- apicrud/access.py: rbac_permissions and with_permission.
pub mod Loop
mod Templates
pub mod Sound
pub mod Anonymous
pub mod Special
pub mod ListId
pub mod Owner
use apicrud.Prelude.{
  Bool, true, false, not, ◌&&◌, ◌||◌, Option, none, some, String, ◌⧺◌, List, [], ◌∷◌, Char, ◌≡◌,
  refl, if◌then◌else◌, ◌==◌, text_eq, char_eq, option_eq,
}
use apicrud.Python.Result.{Exn, Result, ok, err, ◌>>=◌, or_raise}
use apicrud.Python.Text.{show, truthy, in_text, split}
use apicrud.Python.Format.{Env, format}
use apicrud.Python.Regex.{re_fullmatch}
use apicrud.Python.PySet.{contains, union, minus}
use apicrud.Access.{Policy, PrivateResource, Policies, AccessControl, Row}

-- getattr(record, name) where hasattr(record, name)
unfoldable pub column : String → List (String × Option String) → Option (Option String)
column k [] = none
column k ((j, v) ∷ cols) = if j == k then some v else column k cols

-- `a or b`
unfoldable pub or_else : Option String → Option String → Option String
or_else a b = if truthy a then a else b

-- the arguments of rbac_permissions; `some none` is a query that finds no record
pub record Request : Type 0 where
  pub query : Option (Option Row)
  pub owner_uid : Option String
  pub membership : Option String
  pub id : Option String
  pub privacy : Option String

abbrev or_keep {ℓ} : {A : Type ℓ} → Option A → A → A
or_keep none old = old
or_keep (some new) old = new

-- owner_uid, as the record tells it
unfoldable pub record_owner : Row → Option String → Option String
record_owner row owner_uid = elim (column "uid" row.columns) [
  | some uid ↦ uid
  | none ↦ elim (column "referrer_id" row.columns) [
    | some referrer ↦ or_else referrer (some row.id)
    | none ↦ owner_uid
  ]
]

abbrev shared_by : PrivateResource → Option (Option String) → Request → Request
shared_by res none req = req
shared_by res (some id) req = record req { membership = some res.resource; id = id }

abbrev from_row : PrivateResource → Option (Option Row) → Request → Request
from_row res none req = req
from_row res (some none) req = req
from_row res (some (some row)) req = shared_by res (column res.attr row.columns) (record req {
  owner_uid = record_owner row req.owner_uid;
  privacy = or_keep (column "privacy" row.columns) req.privacy;
})

-- `if query: … record = query.one() …`, and `if not id: membership = None`
unfoldable pub read_record : AccessControl → Request → Request
read_record acc req =
    let r = from_row acc.private_res req.query req in
    if truthy r.id then r else record r { membership = none }

-- the special case of contacts: the owner's referrer stands for the owner, and a contact that is
-- some person's identity cannot be deleted
unfoldable pub contact_owner : AccessControl → Option Row → Option String → Result (Option String)
contact_owner acc found owner_uid =
    if truthy acc.uid && not (acc.uid == owner_uid)
    then (do row ← or_raise found Exn.no_result_found; ok (or_else row.owner_referrer owner_uid))
    else ok owner_uid

-- `person_exists info` says whether a person has that identity
unfoldable pub deny_delete : (Option String → Bool) → Option Row → List Char
deny_delete person_exists none = []
deny_delete person_exists (some row) = elim (column "info" row.columns) [
  | none ↦ []
  | some info ↦ if person_exists info then "d" ∷ [] else []
]

-- owner_uid and deny_delete
unfoldable pub contact_case :
    (Option String → Bool)
    → AccessControl
    → Request
    → Option String
    → Result (Option String × List Char)
contact_case person_exists acc req owner_uid = elim req.query [
  | none ↦ ok (owner_uid, [])
  | some found ↦
      if acc.resource == some "contact"
      then (do
        owner ← contact_owner acc found owner_uid
        ok (owner, deny_delete person_exists found))
      else ok (owner_uid, [])
]

-- `self.auth`, where it is None or empty: no roles
abbrev pub roles_of : AccessControl → List String
roles_of acc = elim acc.auth [ none ↦ [] | some roles ↦ roles ]

-- `<membership>-<id>-<privacy>`
unfoldable pub shared_role : Option String → Option String → Option String → String
shared_role membership id privacy = show membership ⧺ ("-" ⧺ (show id ⧺ ("-" ⧺ show privacy)))

unfoldable pub is_shared : AccessControl → Request → Bool
is_shared acc req =
    req.privacy == some "public"
    || (truthy req.id && contains (shared_role req.membership req.id req.privacy) (roles_of acc))

-- the keyword arguments of the three calls of format
unfoldable pub env_of : Option String → Option String → Env
env_of id uid = ("eid", show id) ∷ ("list_id", show id) ∷ ("uid", show uid) ∷ []

unfoldable pub role_text : String → String
role_text role = if role == "person" || role == "user" then role ⧺ "/{uid}" else role

unfoldable pub match_id : AccessControl → Option String → Policy → Option String
match_id acc id policy =
    if in_text "uid" policy.resource
    then acc.uid
    else if in_text "eid" policy.resource
    then id
    else none

-- re.match('^%s$' % policy['resource'].format(…), '%s:%s' % (self.resource, match_id))
unfoldable pub resource_matches :
    AccessControl → Option String → Option String → Policy → Result Bool
resource_matches acc id owner_uid policy = do
  pattern ← or_raise (format (env_of id owner_uid) policy.resource) Exn.format_error
  ok (re_fullmatch pattern (show acc.resource ⧺ (":" ⧺ show (match_id acc id policy))))

-- role.split('-')[0]
unfoldable pub split_head : String → String
split_head role = elim (split "-" role) [ [] ↦ "" | x ∷ xs ↦ x ]

-- the special case for person/contact, principal:<res>-*
unfoldable pub special_case :
    AccessControl → Option String → Option String → Option String → Policy → String → Result Bool
special_case acc membership id owner_uid policy role =
    if policy.principal == (show membership ⧺ "-*")
      && some (split_head (role_text role)) == membership
    then resource_matches acc id owner_uid policy
    else ok false

-- whether the policy grants its actions to the role: the `if … elif …` of the inner loop
unfoldable pub applies :
    AccessControl → Option String → Option String → Option String → Policy → String → Result Bool
applies acc membership id owner_uid policy role = do
  principal ← or_raise (format (env_of id owner_uid) policy.principal) Exn.format_error
  held ← or_raise (format (env_of id acc.uid) (role_text role)) Exn.format_error
  matched ← (if principal == held then resource_matches acc id owner_uid policy else ok false)
  if matched then ok true else special_case acc membership id owner_uid policy role

-- `for role in self.auth`
unfoldable pub role_loop :
    AccessControl
    → Option String
    → Option String
    → Option String
    → Policy
    → List String
    → List Char
    → Result (List Char)
role_loop acc membership id owner_uid policy [] actions = ok actions
role_loop acc membership id owner_uid policy (role ∷ roles) actions = do
  hit ← applies acc membership id owner_uid policy role
  role_loop acc membership id owner_uid policy roles
      (if hit then union actions policy.actions else actions)

-- one policy, on actions and defaults
unfoldable pub policy_step :
    AccessControl
    → Option String
    → Option String
    → Option String
    → Policy
    → List Char × List Char
    → Result (List Char × List Char)
policy_step acc membership id owner_uid policy (actions, defaults) =
    if policy.principal == ".*" then ok (actions, policy.actions) else (do
      more ← role_loop acc membership id owner_uid policy (roles_of acc) actions
      ok (more, defaults))

-- `for policy in self.policies[self.resource]`
unfoldable pub policy_loop :
    AccessControl
    → Option String
    → Option String
    → Option String
    → List Policy
    → List Char × List Char
    → Result (List Char × List Char)
policy_loop acc membership id owner_uid [] found = ok found
policy_loop acc membership id owner_uid (policy ∷ policies) found = do
  next ← policy_step acc membership id owner_uid policy found
  policy_loop acc membership id owner_uid policies next

unfoldable pub lookup_policies : Option String → Policies → Result (List Policy)
lookup_policies res [] = err Exn.key_error
lookup_policies res ((k, ps) ∷ rest) = if res == some k then ok ps else lookup_policies res rest

-- `actions -= deny_delete`, and the defaults where no action is left
unfoldable pub or_defaults : List Char → List Char → List Char
or_defaults [] defaults = defaults
or_defaults (a ∷ actions) defaults = a ∷ actions

unfoldable pub rbac_permissions :
    (Option String → Bool) → AccessControl → Request → Result (List Char)
rbac_permissions person_exists acc req = do
  let r = read_record acc req
  (owner_uid, denied) ← contact_case person_exists acc r r.owner_uid
  policies ← lookup_policies acc.resource acc.policies
  (actions, defaults) ←
      policy_loop acc r.membership r.id owner_uid policies
        ([], (if is_shared acc r then "r" ∷ [] else []))
  ok (or_defaults (minus actions denied) defaults)

-- with_permission(access, query, new_uid, membership, id)
unfoldable pub with_permission :
    (Option String → Bool)
    → AccessControl
    → Char
    → Option (Option Row)
    → Option String
    → Option String
    → Option String
    → Result Bool
with_permission person_exists acc access query new_uid membership id = do
  rbac ← rbac_permissions person_exists acc (record {
    query = query;
    owner_uid = new_uid;
    membership = membership;
    id = id;
    privacy = none;
  })
  ok (contains access rbac)
