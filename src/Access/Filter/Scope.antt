-- ===== src/Access/Filter/Scope.antt =====
-- apicrud/access.py, with_filter: which records a filtered query shows.
use apicrud.Prelude.{
  Bool, true, false, not, ◌&&◌, ◌||◌, some, ◌⧺◌, List, [], ◌∷◌, Char, if◌then◌else◌, ◌==◌, text_eq,
  char_eq, option_eq,
}
use apicrud.Python.Text.{show}
use apicrud.Python.PySet.{contains}
use apicrud.Access.{Policy, AccessControl}
use apicrud.Access.Rbac.{roles_of}
use apicrud.Access.Filter.{Condition, privacy_is_public, principal_head, some_role_matches, Entry}

module _ (acc : AccessControl) (access : Char) where
  -- a policy for everybody, or one on all records for one of the caller's roles
  abbrev pub opens : Policy → Bool
  opens policy =
      (policy.principal == ".*" && contains access policy.actions)
      || (policy.resource == (show acc.resource ⧺ ":.*")
          && contains policy.principal (roles_of acc)
          && contains access policy.actions)

  -- a policy on the caller's own records, for persons or users of whom the caller is one
  abbrev pub owns : Policy → Bool
  owns policy =
      policy.resource == (show acc.resource ⧺ ":{uid}")
      && (principal_head policy.principal == "person" || principal_head policy.principal == "user")
      && contains (principal_head policy.principal) (roles_of acc)
      && contains access policy.actions

  -- the same, for a pattern that one of the caller's roles matches
  abbrev pub owns_by_role : Policy → Bool
  owns_by_role policy =
      policy.resource == (show acc.resource ⧺ ":{uid}")
      && contains access policy.actions
      && some_role_matches policy.principal (roles_of acc)

  abbrev pub some_policy : (Policy → Bool) → List Policy → Bool
  some_policy test [] = false
  some_policy test (policy ∷ policies) = test policy || some_policy test policies

  -- the records that the policies let the caller see
  abbrev pub is_visible : List Policy → Entry → Bool
  is_visible policies e =
      let own = some_policy owns policies || some_policy owns_by_role policies in
      some_policy opens policies
      || (not acc.model_has_privacy && not own)
      || (acc.model_has_privacy && e.privacy == some "public")
      || (own && e.uid == acc.uid)
      || (some_policy owns policies && acc.resource == some "contact" && e.referrer == acc.uid)

  module _ (e : Entry) where
    abbrev is_nil : List Condition → Bool
    is_nil [] = true
    is_nil (c ∷ cs) = false

    -- the four ways in which a policy goes into the sum
    abbrev seen_of : (opened direct by_role none_yet hit own ref : Bool) → Bool
    seen_of opened direct by_role none_yet hit own ref =
        opened
        || (none_yet && not (direct || by_role))
        || hit
        || ((direct || by_role) && own)
        || (direct && ref)

    abbrev own_hit : Bool
    own_hit = e.uid == acc.uid

    abbrev referred : Bool
    referred = acc.resource == some "contact" && e.referrer == acc.uid

    -- with the conditions so far: is there none, and does one hold
    abbrev seen : List Policy → (none_yet hit : Bool) → Bool
    seen policies none_yet hit =
        seen_of (some_policy opens policies) (some_policy owns policies)
          (some_policy owns_by_role policies) none_yet hit own_hit referred

    abbrev first : Bool → List Condition
    first b = if b then privacy_is_public ∷ [] else []
