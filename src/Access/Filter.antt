-- ===== src/Access/Filter.antt =====
-- apicrud/access.py: with_filter. A query is what the method adds to it, and the records that it shows
-- for that.
pub mod Scope
use apicrud.Prelude.{
  Bool, true, false, not, ◌&&◌, ◌||◌, Option, none, some, String, ◌⧺◌, List, [], ◌∷◌, ◌++◌, Char,
  ◌≡◌, refl, if◌then◌else◌, ◌==◌, text_eq, char_eq, option_eq,
}
use apicrud.Python.Result.{Exn, Result, ok, err, ◌>>=◌}
use apicrud.Python.Text.{show, split}
use apicrud.Python.Regex.{re_match}
use apicrud.Python.PySet.{contains}
use apicrud.Access.{Policy, AccessControl}
use apicrud.Access.Rbac.{roles_of, lookup_policies}

-- the conditions that are collected
pub data Condition : Type 0 where
  privacy_is_public : Condition
  uid_is referrer_is : Option String → Condition

-- The conditions so far, and whether Person has been joined; or the query is returned as it came.
pub data Filtered : Type 0 where
  unrestricted : Filtered
  any_of : List Condition → Bool → Filtered

-- policy['principal'].split('/')[0]
unfoldable pub principal_head : String → String
principal_head p = elim (split "/" p) [ [] ↦ "" | x ∷ xs ↦ x ]

-- `for role in self.auth: if re.match(…): …; break`
unfoldable pub some_role_matches : String → List String → Bool
some_role_matches principal [] = false
some_role_matches principal (role ∷ roles) =
    re_match principal role || some_role_matches principal roles

-- what one policy does: return the query, or add conditions
unfoldable pub filter_step : AccessControl → Char → Policy → List Condition → Bool → Filtered
filter_step acc access policy conditions joined =
    let listed = contains access policy.actions in
    let all = show acc.resource ⧺ ":.*" in
    let own = show acc.resource ⧺ ":{uid}" in
    let head = principal_head policy.principal in
    if policy.principal == ".*" && listed
    then unrestricted
    else if policy.resource == all && contains policy.principal (roles_of acc) && listed
    then unrestricted
    else if policy.resource == own
        && (head == "person" || head == "user")
        && contains head (roles_of acc)
        && listed
    then (if acc.resource == some "contact"
        then any_of (conditions ++ uid_is acc.uid ∷ referrer_is acc.uid ∷ []) true
        else any_of (conditions ++ uid_is acc.uid ∷ []) joined)
    else if policy.resource == own && listed && some_role_matches policy.principal (roles_of acc)
    then any_of (conditions ++ uid_is acc.uid ∷ []) joined
    else any_of conditions joined

-- `for policy in self.policies[self.resource]`
unfoldable pub filter_loop : AccessControl → Char → List Policy → Filtered → Filtered
filter_loop acc access policies unrestricted = unrestricted
filter_loop acc access [] (any_of conditions joined) = any_of conditions joined
filter_loop acc access (policy ∷ policies) (any_of conditions joined) =
    filter_loop acc access policies (filter_step acc access policy conditions joined)

unfoldable pub with_filter : AccessControl → Char → Result Filtered
with_filter acc access = do
  policies ← lookup_policies acc.resource acc.policies
  ok (
      filter_loop acc access policies
        (any_of (if acc.model_has_privacy then privacy_is_public ∷ [] else []) false))

-- what the conditions read of a record: its privacy, its uid, and the referrer of its person, where
-- Person is joined
pub record Entry : Type 0 where
  pub privacy : Option String
  pub uid : Option String
  pub referrer : Option String

unfoldable pub holds : Entry → Condition → Bool
holds e privacy_is_public = e.privacy == some "public"
holds e (uid_is uid) = e.uid == uid
holds e (referrer_is uid) = e.referrer == uid

unfoldable pub some_holds : Entry → List Condition → Bool
some_holds e [] = false
some_holds e (condition ∷ conditions) = holds e condition || some_holds e conditions

-- query.filter(or_(*conditions)), and what it shows: without conditions, or_() is no filter
unfoldable pub shows : Entry → Filtered → Bool
shows e unrestricted = true
shows e (any_of [] joined) = true
shows e (any_of (condition ∷ conditions) joined) = some_holds e (condition ∷ conditions)
