-- ===== src/Access/Rbac/Sound.antt =====
-- Where the actions that rbac_permissions returns come from, and which are sure to be there.
use apicrud.Prelude.{
  Bool, true, false, Option, String, List, [], ◌∷◌, Char, ◌≡◌, refl, ◌⊎◌, inl, inr, if◌then◌else◌,
  char_eq, arith, sym,
}
use apicrud.Python.Result.{ok, >>=-eq-ok}
use apicrud.Python.PySet.{contains, minus, contains-minus}
use apicrud.Python.Text.{same_char, same_char_eq}
use apicrud.Access.{Policy, AccessControl}
use apicrud.Access.Rbac.{
  Request, read_record, contact_case, is_shared, lookup_policies, policy_loop, or_defaults,
  rbac_permissions,
}
use apicrud.Access.Rbac.Loop.{
  Granted, Wildcard, policy_loop-actions, policy_loop-defaults, policy_loop_complete,
}

or_defaults_cases :
    (a : Char) (xs ys : List Char)
    → contains a (or_defaults xs ys) ≡ true
    → (contains a xs ≡ true) ⊎ (contains a ys ≡ true)
unfolding or_defaults
or_defaults_cases a [] ys h = inr h
or_defaults_cases a (x ∷ xs) ys h = inl h

contains-or_defaults :
    (a : Char) (xs ys : List Char) → contains a xs ≡ true → contains a (or_defaults xs ys) ≡ true
unfolding or_defaults contains
contains-or_defaults a [] ys h = cc
contains-or_defaults a (x ∷ xs) ys h = h

shared_default :
    (a : Char) (shared : Bool)
    → contains a (if shared then "r" ∷ [] else []) ≡ true
    → (a ≡ "r") × (shared ≡ true)
unfolding contains
shared_default a true h =
    let same : same_char "r" a ≡ true = ground arith in (sym (same_char_eq "r" a same), refl)
shared_default a false h = cc

module _ (person_exists : Option String → Bool) (acc : AccessControl) (req : Request) (a : Char)
    {owner_uid : Option String} {denied : List Char} {policies : List Policy} {perms : List Char}
    (contact : contact_case person_exists acc (read_record acc req) (read_record acc req).owner_uid
      ≡ ok (owner_uid, denied))
    (listed : lookup_policies acc.resource acc.policies ≡ ok policies)
    (run : rbac_permissions person_exists acc req ≡ ok perms) where
  loop_result :
      (found : List Char × List Char) × (policy_loop acc
          (read_record acc req).membership
          (read_record acc req).id
          owner_uid
          policies
          ([], (if is_shared acc (read_record acc req) then "r" ∷ [] else []))
        ≡ ok found)
      × (or_defaults (minus found.0 denied) found.1 ≡ perms)
  unfolding rbac_permissions
  loop_result =
      let (found, loop, e) =
        >>=-eq-ok
          (policy_loop acc (read_record acc req).membership (read_record acc req).id owner_uid
            policies ([], (if is_shared acc (read_record acc req) then "r" ∷ [] else [])))
          _ (rw (contact, listed) at run) in
      (found, loop, cc e)

  -- Every action that rbac_permissions returns has one of three sources: a policy that grants it
  -- to a role of the caller, if it is not denied; a policy for everybody; or the privacy of the
  -- record, for `r`.
  pub rbac_permissions_sound :
      contains a perms ≡ true
      → (Granted acc (read_record acc req).membership (read_record acc req).id owner_uid a policies
          × (contains a denied ≡ false))
        ⊎ (Wildcard a policies ⊎ ((a ≡ "r") × (is_shared acc (read_record acc req) ≡ true)))
  rbac_permissions_sound m =
      let (found, loop, e) = loop_result in
      elim (or_defaults_cases a (minus found.0 denied) found.1 (rw e m)) [
        | inl action ↦
            let kept : contains a found.0 ≡ true =
              ground (arith, contains-minus a found.0 denied) in
            let allowed : contains a denied ≡ false =
              ground (arith, contains-minus a found.0 denied) in
            elim (policy_loop-actions acc _ _ owner_uid a policies _ loop kept) [
              | inl before ↦ unfold contains in cc
              | inr granted ↦ inl (granted, allowed)
            ]
        | inr default ↦ elim (policy_loop-defaults acc _ _ owner_uid a policies _ loop default) [
          | inl before ↦ inr (inr (shared_default a (is_shared acc (read_record acc req)) before))
          | inr wildcard ↦ inr (inl wildcard)
        ]
      ]

  -- Every action that a policy grants to a role of the caller is returned, unless it is denied.
  pub rbac_permissions_complete :
      Granted acc (read_record acc req).membership (read_record acc req).id owner_uid a policies
      → contains a denied ≡ false
      → contains a perms ≡ true
  rbac_permissions_complete granted allowed =
      let (found, loop, e) = loop_result in
      let kept : contains a found.0 ≡ true =
        policy_loop_complete acc _ _ owner_uid a policies _ loop granted in
      rw (← e) (
        contains-or_defaults a (minus found.0 denied) found.1
          (ground (arith, contains-minus a found.0 denied)))
