-- ===== src/Access/Rbac/Owner.antt =====
-- The policy of rbac.yaml for owners: principal `user/{uid}` on `<resource>:{uid}`.
use Prim.Native.String.{String}
use apicrud.Prelude.{
  Bool, true, false, Option, some, List, Char, ◌≡◌, ◌≢◌, refl, inl, inr, ◌==◌, text_eq, char_eq,
  Bool-cases, ◌∙◌, ap, sym, subst, eq_iff, ◌⧺◌, Any, Any-map,
}
use apicrud.Python.Result.{ok}
use apicrud.Python.Text.{show, in_text, in_text-append, append-beq}
use apicrud.Python.Format.{format, no_braces}
use apicrud.Python.PySet.{contains, Any-of_contains}
use apicrud.Python.Regex.{is_plain, chop, re_fullmatch_plain}
use apicrud.Access.{Policy, AccessControl}
use apicrud.Access.Rbac.{
  env_of, match_id, resource_matches, role_text, applies, roles_of, Request, read_record,
  contact_case, lookup_policies, rbac_permissions,
}
use apicrud.Access.Rbac.Loop.{Applies, Granted}
use apicrud.Access.Rbac.Sound.{rbac_permissions_complete}
use apicrud.Access.Rbac.Special.{ends_in_dash_star, special_case_off}
use apicrud.Access.Rbac.Templates.{format-uid, format_user}

abbrev pub user_policy : String → List Char → Policy
user_policy res actions = record {
  principal = "user/{uid}";
  resource = res ⧺ ":{uid}";
  actions = actions;
}

not_star : ◌≢◌ {A = String} "user/{uid}" ".*"
not_star e = cc ((eq_iff "user/{uid}" ".*").1 e)

module _ (acc : AccessControl) (membership id : Option String) (res o u : String)
    (actions : List Char) (resource : acc.resource ≡ some res) (caller : acc.uid ≡ some u)
    (braces : no_braces res ≡ true) (plain : is_plain (res ⧺ (":" ⧺ o)) ≡ true)
    (line : chop (res ⧺ (":" ⧺ u)) ≡ res ⧺ (":" ⧺ u)) where
  owner-resource_matches : resource_matches acc id (some o) (user_policy res actions) ≡ ok (o == u)
  unfolding resource_matches match_id show
  owner-resource_matches =
      let uid_in : in_text "uid" (res ⧺ ":{uid}") ≡ true =
        in_text-append "uid" res ":{uid}" (unfold in_text in refl) in
      rw (format-uid id (some o) res braces) (
        rw (uid_in, resource, caller)
          (ap ok (
            re_fullmatch_plain (res ⧺ (":" ⧺ o)) (res ⧺ (":" ⧺ u)) plain line
            ∙ append-beq res (":" ⧺ o) (":" ⧺ u)
            ∙ append-beq ":" o u)))

  held_by_user : format (env_of id acc.uid) (role_text "user") ≡ some ("user/" ⧺ u)
  unfolding role_text show
  held_by_user = format_user id acc.uid ∙ ap (λ (x : Option String). some ("user/" ⧺ show x)) caller

  -- The policy for owners applies to a user exactly when the record is the user's own.
  pub applies-user_policy :
      applies acc membership id (some o) (user_policy res actions) "user" ≡ ok (o == u)
  unfolding applies show
  applies-user_policy =
      rw (format_user id (some o), held_by_user)
        (rw
          (
            append-beq "user/" o u,
            owner-resource_matches,
            special_case_off acc membership id (some o) (user_policy res actions) "user"
                (unfold ends_in_dash_star in refl),
          )
          (elim (Bool-cases (o == u)) [ inl own ↦ rw own | inr foreign ↦ rw foreign ]))

  -- So an owner's policy is among those that grant.
  pub Granted-owner :
      (a : Char) (policies : List Policy)
      → o ≡ u
      → contains "user" (roles_of acc) ≡ true
      → contains a actions ≡ true
      → Any (λ policy. policy ≡ user_policy res actions) policies
      → Granted acc membership id (some o) a policies
  Granted-owner a policies own role listed member =
      let own' : (o == u) ≡ true = (eq_iff o u).1 own in
      Any-map _ _ policies
        (λ policy e.
          subst
            (λ (p : Policy).
              (p.principal ≢ ".*")
              × Applies acc membership id (some o) p (roles_of acc)
              × (contains a p.actions ≡ true))
            (sym e)
            (
              not_star,
              Any-of_contains
                  (λ role.
                    applies acc membership id (some o) (user_policy res actions) role ≡ ok true)
                  "user" (roles_of acc) role (applies-user_policy ∙ ap ok own'),
              listed,
            ))
        member

-- A user whose id does not end in a newline may do to a record of their own whatever the owners' policy
-- lists, unless it is denied.
pub owner_may :
    (person_exists : Option String → Bool) (acc : AccessControl) (req : Request) (a : Char)
    (res u : String) (actions denied : List Char) (policies : List Policy) {perms : List Char}
    → acc.resource ≡ some res
    → acc.uid ≡ some u
    → no_braces res ≡ true
    → is_plain (res ⧺ (":" ⧺ u)) ≡ true
    → chop (res ⧺ (":" ⧺ u)) ≡ res ⧺ (":" ⧺ u)
    → contains "user" (roles_of acc) ≡ true
    → contact_case person_exists acc (read_record acc req) (read_record acc req).owner_uid
      ≡ ok (some u, denied)
    → lookup_policies acc.resource acc.policies ≡ ok policies
    → Any (λ policy. policy ≡ user_policy res actions) policies
    → contains a actions ≡ true
    → contains a denied ≡ false
    → rbac_permissions person_exists acc req ≡ ok perms
    → contains a perms ≡ true
owner_may person_exists acc req a res u actions denied policies resource caller braces plain line
      role contact listed member action allowed run =
    rbac_permissions_complete person_exists acc req a contact listed run
      (Granted-owner acc _ _ res u u actions resource caller braces plain line a policies refl role
        action member)
      allowed
