-- ===== src/Access/Rbac/Loop.antt =====
-- The two loops of rbac_permissions: where an action comes from, and which actions are found.
use apicrud.Prelude.{
  true, Option, String, List, [], ◌∷◌, Char, ◌≡◌, ◌≢◌, ◌∙◌, ap, ◌⊎◌, inl, inr, ◌==◌, text_eq,
  char_eq, Bool-cases, Any, arith, eq_iff,
}
use apicrud.Python.Result.{ok, >>=-eq-ok}
use apicrud.Python.PySet.{contains, union, contains-union, union_if_cases, contains-union_if}
use apicrud.Access.{Policy, AccessControl}
use apicrud.Access.Rbac.{applies, role_loop, policy_step, policy_loop, roles_of}

module _ (acc : AccessControl) (membership id owner_uid : Option String) where
  -- The policy grants its actions to one of the roles.
  abbrev pub Applies : Policy → List String → Type 0
  Applies policy roles =
      Any (λ role. applies acc membership id owner_uid policy role ≡ ok true) roles

  -- A policy of the list, no wildcard, lists the action and grants it to a role of the caller.
  abbrev pub Granted : Char → List Policy → Type 0
  Granted a policies =
      Any
        (λ policy.
          (policy.principal ≢ ".*")
          × Applies policy (roles_of acc)
          × (contains a policy.actions ≡ true))
        policies

-- A policy for everybody lists the action.
abbrev pub Wildcard : Char → List Policy → Type 0
Wildcard a policies =
    Any (λ policy. (policy.principal ≡ ".*") × (contains a policy.actions ≡ true)) policies

module _ (acc : AccessControl) (membership id owner_uid : Option String) (a : Char) where
  pub role_loop_sound :
      (policy : Policy) (roles : List String) (actions : List Char) {out : List Char}
      → role_loop acc membership id owner_uid policy roles actions ≡ ok out
      → contains a out ≡ true
      → (contains a actions ≡ true)
        ⊎ (Applies acc membership id owner_uid policy roles × (contains a policy.actions ≡ true))
  unfolding role_loop
  role_loop_sound policy [] actions h m = ground arith
  role_loop_sound policy (role ∷ roles) actions h m =
      let (hit, run, rest) = >>=-eq-ok (applies acc membership id owner_uid policy role) _ h in
      elim (role_loop_sound policy roles _ rest m) [
        | inr (held, listed) ↦ inr (inr held, listed)
        | inl before ↦ elim (union_if_cases a hit actions policy.actions before) [
          | inl old ↦ inl old
          | inr (granted, listed) ↦ inr (inl (run ∙ ap ok granted), listed)
        ]
      ]

  -- No round takes an action away.
  pub role_loop-keeps :
      (policy : Policy) (roles : List String) (actions : List Char) {out : List Char}
      → role_loop acc membership id owner_uid policy roles actions ≡ ok out
      → contains a actions ≡ true
      → contains a out ≡ true
  unfolding role_loop
  role_loop-keeps policy [] actions h m = ground arith
  role_loop-keeps policy (role ∷ roles) actions h m =
      let (hit, run, rest) = >>=-eq-ok (applies acc membership id owner_uid policy role) _ h in
      role_loop-keeps policy roles _ rest (contains-union_if a hit actions policy.actions m)

  pub role_loop_complete :
      (policy : Policy) (roles : List String) (actions : List Char) {out : List Char}
      → role_loop acc membership id owner_uid policy roles actions ≡ ok out
      → Applies acc membership id owner_uid policy roles
      → contains a policy.actions ≡ true
      → contains a out ≡ true
  unfolding role_loop
  role_loop_complete policy [] actions h held listed = absurd held
  role_loop_complete policy (role ∷ roles) actions h (inl here) listed =
      role_loop-keeps policy roles (union actions policy.actions) (rw here at h)
        (ground (arith, contains-union a actions policy.actions))
  role_loop_complete policy (role ∷ roles) actions h (inr later) listed =
      let (hit, run, rest) = >>=-eq-ok (applies acc membership id owner_uid policy role) _ h in
      role_loop_complete policy roles _ rest later listed

module _ (acc : AccessControl) (membership id owner_uid : Option String) where
  -- The two ways in which a policy is read.
  policy_step_cases :
      (policy : Policy) (found : List Char × List Char) {out : List Char × List Char}
      → policy_step acc membership id owner_uid policy found ≡ ok out
      → ((policy.principal ≡ ".*") × (out ≡ (found.0, policy.actions)))
        ⊎ ((policy.principal ≢ ".*")
            × ((more : List Char) × (role_loop acc membership id owner_uid policy
                    (roles_of acc)
                    found.0
                  ≡ ok more)
                × (out ≡ (more, found.1))))
  unfolding policy_step
  policy_step_cases policy (actions, defaults) {out} h =
      elim (Bool-cases (policy.principal == ".*")) [
        | inl star ↦ inl ((eq_iff policy.principal ".*").0 star, cc (rw star at h))
        | inr other ↦
            let (more, run, e) =
              >>=-eq-ok (role_loop acc membership id owner_uid policy (roles_of acc) actions) _
                (rw other at h) in
            inr (λ star. cc ((eq_iff policy.principal ".*").1 star, other), (more, run, cc e))
      ]

  module _ (a : Char) where
    policy_step-actions :
        (policy : Policy) (found : List Char × List Char) {out : List Char × List Char}
        → policy_step acc membership id owner_uid policy found ≡ ok out
        → contains a out.0 ≡ true
        → (contains a found.0 ≡ true)
          ⊎ ((policy.principal ≢ ".*")
              × Applies acc membership id owner_uid policy (roles_of acc)
              × (contains a policy.actions ≡ true))
    policy_step-actions policy found h m = elim (policy_step_cases policy found h) [
      | inl (star, e) ↦ inl (rw (← ap (λ (t : List Char × List Char). t.0) e) m)
      | inr (other, (more, round, e)) ↦
          elim (role_loop_sound acc membership id owner_uid a policy (roles_of acc) found.0 round
            (rw (← ap (λ (t : List Char × List Char). t.0) e) m)) [
              | inl old ↦ inl old
              | inr (held, listed) ↦ inr (other, held, listed)
            ]
    ]

    policy_step-defaults :
        (policy : Policy) (found : List Char × List Char) {out : List Char × List Char}
        → policy_step acc membership id owner_uid policy found ≡ ok out
        → contains a out.1 ≡ true
        → (contains a found.1 ≡ true)
          ⊎ ((policy.principal ≡ ".*") × (contains a policy.actions ≡ true))
    policy_step-defaults policy found h m = elim (policy_step_cases policy found h) [
      | inl (star, e) ↦ inr (star, rw (← ap (λ (t : List Char × List Char). t.1) e) m)
      | inr (other, (more, round, e)) ↦ inl (rw (← ap (λ (t : List Char × List Char). t.1) e) m)
    ]

    -- An action that the loop finds was there before, or a policy grants it.
    pub policy_loop-actions :
        (policies : List Policy) (found : List Char × List Char) {out : List Char × List Char}
        → policy_loop acc membership id owner_uid policies found ≡ ok out
        → contains a out.0 ≡ true
        → (contains a found.0 ≡ true) ⊎ Granted acc membership id owner_uid a policies
    unfolding policy_loop
    policy_loop-actions [] found h m = ground arith
    policy_loop-actions (policy ∷ policies) found h m =
        let (next, run, rest) =
          >>=-eq-ok (policy_step acc membership id owner_uid policy found) _ h in
        elim (policy_loop-actions policies next rest m) [
          | inr later ↦ inr (inr later)
          | inl before ↦ elim (policy_step-actions policy found run before) [
            | inl old ↦ inl old
            | inr here ↦ inr (inl here)
          ]
        ]

    -- A default that the loop leaves was there before, or a wildcard policy lists it.
    pub policy_loop-defaults :
        (policies : List Policy) (found : List Char × List Char) {out : List Char × List Char}
        → policy_loop acc membership id owner_uid policies found ≡ ok out
        → contains a out.1 ≡ true
        → (contains a found.1 ≡ true) ⊎ Wildcard a policies
    unfolding policy_loop
    policy_loop-defaults [] found h m = ground arith
    policy_loop-defaults (policy ∷ policies) found h m =
        let (next, run, rest) =
          >>=-eq-ok (policy_step acc membership id owner_uid policy found) _ h in
        elim (policy_loop-defaults policies next rest m) [
          | inr later ↦ inr (inr later)
          | inl before ↦ elim (policy_step-defaults policy found run before) [
            | inl old ↦ inl old
            | inr here ↦ inr (inl here)
          ]
        ]

    policy_step-keeps :
        (policy : Policy) (found : List Char × List Char) {out : List Char × List Char}
        → policy_step acc membership id owner_uid policy found ≡ ok out
        → contains a found.0 ≡ true
        → contains a out.0 ≡ true
    policy_step-keeps policy found h m = elim (policy_step_cases policy found h) [
      | inl (star, e) ↦ rw (ap (λ (t : List Char × List Char). t.0) e) m
      | inr (other, (more, round, e)) ↦
          rw (ap (λ (t : List Char × List Char). t.0) e)
            (role_loop-keeps acc membership id owner_uid a policy (roles_of acc) found.0 round m)
    ]

    pub policy_loop-keeps :
        (policies : List Policy) (found : List Char × List Char) {out : List Char × List Char}
        → policy_loop acc membership id owner_uid policies found ≡ ok out
        → contains a found.0 ≡ true
        → contains a out.0 ≡ true
    unfolding policy_loop
    policy_loop-keeps [] found h m = ground arith
    policy_loop-keeps (policy ∷ policies) found h m =
        let (next, run, rest) =
          >>=-eq-ok (policy_step acc membership id owner_uid policy found) _ h in
        policy_loop-keeps policies next rest (policy_step-keeps policy found run m)

    -- Every action that some policy grants is found.
    pub policy_loop_complete :
        (policies : List Policy) (found : List Char × List Char) {out : List Char × List Char}
        → policy_loop acc membership id owner_uid policies found ≡ ok out
        → Granted acc membership id owner_uid a policies
        → contains a out.0 ≡ true
    unfolding policy_loop
    policy_loop_complete [] found h g = absurd g
    policy_loop_complete (policy ∷ policies) found h (inr later) =
        let (next, run, rest) =
          >>=-eq-ok (policy_step acc membership id owner_uid policy found) _ h in
        policy_loop_complete policies next rest later
    policy_loop_complete (policy ∷ policies) found h (inl (other, held, listed)) =
        let (next, run, rest) =
          >>=-eq-ok (policy_step acc membership id owner_uid policy found) _ h in
        policy_loop-keeps policies next rest (elim (policy_step_cases policy found run) [
          | inl (star, e) ↦ absurd (other star)
          | inr (_, (more, round, e)) ↦ rw (ap (λ (t : List Char × List Char). t.0) e) (
              role_loop_complete acc membership id owner_uid a policy (roles_of acc) found.0 round
                held listed)
        ])
