-- ===== src/Access/Rbac/Anonymous.antt =====
-- What rbac_permissions returns to a caller with no credentials.
use apicrud.Prelude.{
  Bool, Option, none, some, String, List, [], ◌∷◌, Char, ◌≡◌, refl, inl, inr, if◌then◌else◌, ◌==◌,
  text_eq, char_eq, option_eq, Bool-cases, Option-cases, arith,
}
use apicrud.Python.Result.{ok}
use apicrud.Python.PySet.{contains, minus}
use apicrud.Python.Text.{truthy}
use apicrud.Access.{Policy, AccessControl}
use apicrud.Access.Rbac.{
  Request, read_record, contact_owner, contact_case, deny_delete, is_shared, lookup_policies,
  role_loop, policy_step, policy_loop, or_defaults, rbac_permissions, roles_of,
}

-- The actions of the last policy for everybody, or the given ones.
pub last_wildcard : List Policy → List Char → List Char
last_wildcard [] actions = actions
last_wildcard (policy ∷ policies) actions =
    last_wildcard policies (if policy.principal == ".*" then policy.actions else actions)

module _ (acc : AccessControl) (no_roles : roles_of acc ≡ [])
    (membership id owner_uid : Option String) where
  policy_step_anonymous :
      (policy : Policy) (actions defaults : List Char)
      → policy_step acc membership id owner_uid policy (actions, defaults)
        ≡ ok (actions, (if policy.principal == ".*" then policy.actions else defaults))
  unfolding policy_step
  policy_step_anonymous policy actions defaults = elim (Bool-cases (policy.principal == ".*")) [
    | inl star ↦ rw star
    | inr other ↦ rw other (rw no_roles (unfold role_loop in refl))
  ]

  policy_loop_anonymous :
      (policies : List Policy) (actions defaults : List Char)
      → policy_loop acc membership id owner_uid policies (actions, defaults)
        ≡ ok (actions, last_wildcard policies defaults)
  unfolding policy_loop last_wildcard
  policy_loop_anonymous [] actions defaults = refl
  policy_loop_anonymous (policy ∷ policies) actions defaults =
      rw (policy_step_anonymous policy actions defaults) (policy_loop_anonymous policies actions _)

contact_case_anonymous :
    (person_exists : Option String → Bool) (acc : AccessControl) (req : Request)
    (owner_uid : Option String)
    → acc.uid ≡ none
    → (denied : List Char) × (contact_case person_exists acc req owner_uid ≡ ok (owner_uid, denied))
unfolding contact_case contact_owner truthy
contact_case_anonymous person_exists acc req owner_uid h = elim (Option-cases req.query) [
  | inl none_given ↦ ([], rw none_given)
  | inr (found, given) ↦ elim (Bool-cases (acc.resource == some "contact")) [
    | inl contact ↦ (deny_delete person_exists found, rw (given, contact, h))
    | inr other ↦ ([], rw (given, other))
  ]
]

is_shared_anonymous :
    (acc : AccessControl) (req : Request)
    → roles_of acc ≡ []
    → is_shared acc req ≡ (req.privacy == some "public")
unfolding is_shared
is_shared_anonymous acc req no_roles = rw no_roles (unfold contains in ground arith)

-- With no roles and no uid, the result does not depend on owner, membership or id: it is what the
-- last policy for everybody lists, or else `r` on a public record and nothing on any other.
pub rbac_permissions_anonymous :
    (person_exists : Option String → Bool) (acc : AccessControl) (req : Request)
    (policies : List Policy)
    → roles_of acc ≡ []
    → acc.uid ≡ none
    → lookup_policies acc.resource acc.policies ≡ ok policies
    → rbac_permissions person_exists acc req
      ≡ ok (
          last_wildcard policies
            (if (read_record acc req).privacy == some "public" then "r" ∷ [] else []))
unfolding rbac_permissions
rbac_permissions_anonymous person_exists acc req policies no_roles no_uid listed =
    let (denied, contact) =
      contact_case_anonymous person_exists acc (read_record acc req) (read_record acc req).owner_uid
        no_uid in
    rw (contact, listed)
      (rw
        (policy_loop_anonymous acc no_roles (read_record acc req).membership
          (read_record acc req).id (read_record acc req).owner_uid policies [] _)
        (rw (is_shared_anonymous acc (read_record acc req) no_roles)
          (unfold or_defaults minus in refl)))
