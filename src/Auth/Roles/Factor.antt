-- ===== src/Auth/Roles/Factor.antt =====
-- apicrud/session_auth.py, SessionAuth.login_accepted: who gets the role `user`.
use apicrud.Prelude.{
  ℕ, Bool, true, false, not, ◌&&◌, ◌||◌, Option, none, some, String, List, ◌≡◌, ◌⊎◌, inl, inr, refl,
  ap, ◌==◌, text_eq, option_eq, eq_iff, Bool-cases,
}
use apicrud.Python.Result.{Result, ok, err}
use apicrud.Python.PySet.{contains}
use apicrud.Auth.{AuthConfig, Account}
use apicrud.Auth.Roles.{is_direct, Situation, contact_roles, bypass_roles, choose_roles}

-- the method is one for which the settings ask for a second factor
abbrev pub is_guarded : AuthConfig → Situation → Bool
is_guarded config at = is_direct at.method || config.login_mfa_external

abbrev pub Grants : String → Result (List String × ℕ) → Type 0
Grants role (err e) = ⊥
Grants role (ok (roles, duration)) = contains role roles ≡ true

module _ (config : AuthConfig) (account : Account) (at : Situation) where
  contact_known :
      (contact : Option String)
      → Grants "user" (contact_roles config account at contact)
      → (contact ≡ some "active") ⊎ (contact ≡ some "unconfirmed")
  unfolding contact_roles contains
  contact_known none = λ h. absurd h
  contact_known (some status) = elim (Bool-cases (status == "active")) [
    | inl active ↦ λ h. inl (ap some ((eq_iff status "active").0 active))
    | inr other ↦ elim (Bool-cases (status == "unconfirmed")) [
      | inl new ↦ λ h. inr (ap some ((eq_iff status "unconfirmed").0 new))
      | inr neither ↦ rw (other, neither) (λ h. absurd (cc))
    ]
  ]

  bypass_known :
      (challenged : Bool) (bypass : Result Bool)
      → Grants "user" (bypass_roles config account at challenged bypass)
      → (((at.contact ≡ some "active") ⊎ (at.contact ≡ some "unconfirmed"))
          × (challenged ≡ true → bypass ≡ ok true))
  unfolding bypass_roles contains
  bypass_known challenged (err e) h = absurd h
  bypass_known challenged (ok true) h = (contact_known at.contact h, λ c. refl)
  bypass_known false (ok false) h = (contact_known at.contact h, λ c. cc)
  bypass_known true (ok false) h = absurd (cc)

  -- where the roles have `user`: `bypass` is the answer of totp_bypass, and `at.pending` says that the
  -- session of the caller waits for the second factor
  pub choose_roles_guarded :
      (bypass : Result Bool)
      → Grants "user" (choose_roles config account at bypass)
      → ((at.contact ≡ some "active") ⊎ (at.contact ≡ some "unconfirmed"))
        × ((account.password_must_change && at.method == some "local") ≡ false)
        × ((not account.totp && config.login_mfa_required && is_guarded config at) ≡ false)
        × ((account.totp && is_guarded config at && not at.pending) ≡ true → bypass ≡ ok true)
  unfolding choose_roles contains
  choose_roles_guarded bypass =
      elim (Bool-cases (account.password_must_change && at.method == some "local")) [
        | inl change ↦ rw change (λ h. absurd (cc))
        | inr kept ↦
            elim (Bool-cases
              (not account.totp && config.login_mfa_required && is_guarded config at)) [
                | inl required ↦ rw (kept, required) (λ h. absurd (cc))
                | inr enrolled ↦
                    rw (kept, enrolled)
                      (λ h.
                        let (contact, passed) = bypass_known _ bypass h in
                        (contact, refl, refl, passed))
              ]
      ]
