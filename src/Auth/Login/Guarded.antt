-- ===== src/Auth/Login/Guarded.antt =====
-- apicrud/session_auth.py, SessionAuth.account_login: who gets the role `user`.
use apicrud.Prelude.{
  true, false, not, ◌&&◌, Option, some, String, ◌≡◌, ◌⊎◌, inl, inr, refl, subst, sym, ◌==◌, text_eq,
  option_eq, Bool-cases, arith,
}
use apicrud.Python.Result.{ok}
use apicrud.Python.PySet.{contains}
use apicrud.Redis.{Redis}
use apicrud.Access.{AccessControl}
use apicrud.Session.{Content, Codec, Config}
use apicrud.Metrics.{Metrics}
use apicrud.Auth.{AuthConfig, Account}
use apicrud.Auth.Roles.{is_pending, totp_bypass}
use apicrud.Auth.Roles.Factor.{is_guarded, Grants, choose_roles_guarded}
use apicrud.Auth.Login.Opened.{at_of, IsVouched, IsOpened, account_login-IsOpened}
use apicrud.Auth.Login.{known, Providers, Attempt, Reply, is_second, attempted, account_login}

module _ {B : Type 0} (r : Redis B) (codec : Codec B) (sha1 : String → String) (sessions : Config)
    (metrics : Metrics) (config : AuthConfig) (p : Providers r.State) (acc : AccessControl)
    (a : Attempt) where
  -- a session whose roles have `user` is that of an account in order, and the second factor, where
  -- the account has one and the method asks for it, was accepted in this login or is bypassed
  abbrev pub IsGuarded :
      (s : r.State) (content : Content)
      → IsOpened r codec sha1 sessions metrics config p acc a s content
      → Type 0
  IsGuarded s content o =
      let at = at_of r codec sha1 sessions metrics config p acc a o.method o.account in
      contains "user" o.roles ≡ true
      → ((at.contact ≡ some "active") ⊎ (at.contact ≡ some "unconfirmed"))
        × ((o.account.password_must_change && o.method == some "local") ≡ false)
        × ((not o.account.totp && config.login_mfa_required && is_guarded config at) ≡ false)
        × ((o.account.totp && is_guarded config at) ≡ true
            → (p.totp s ≡ (o.state, ok (known o.account)))
              ⊎ (totp_bypass r codec a.up o.state o.account.uid a.cookie ≡ ok true))

  pending-is_second :
      is_pending acc ≡ true → is_second r codec sha1 sessions metrics config p acc a ≡ true
  unfolding is_second
  pending-is_second h = rw h refl

  by_factor :
      (s s' : r.State) (account : Account) (method : Option String)
      → IsVouched r codec sha1 sessions metrics config p acc a s s' account method
      → is_pending acc ≡ true
      → p.totp s ≡ (s', ok (known account))
  by_factor s s' account method (inl (second, otp, accepted_by, named)) h = accepted_by
  by_factor s s' account method (inr (first, same, known_by)) h =
      let second = pending-is_second h in absurd (cc)

  opened-IsGuarded :
      (s : r.State) (content : Content)
      (o : IsOpened r codec sha1 sessions metrics config p acc a s content)
      → IsGuarded s content o
  opened-IsGuarded s content o user =
      let at = at_of r codec sha1 sessions metrics config p acc a o.method o.account in
      let bypass = totp_bypass r codec a.up o.state o.account.uid a.cookie in
      let (contact, password, enrolled, passed) =
        choose_roles_guarded config o.account at bypass
          (subst (Grants "user") (sym o.chosen) user) in
      (
        contact,
        password,
        enrolled,
        λ challenged. elim (Bool-cases (is_pending acc)) [
          | inl waits ↦ inl (by_factor s o.state o.account o.method o.vouched waits)
          | inr settled ↦ inr (passed (ground (arith, challenged, settled)))
        ],
      )

  -- A login opens a session with the role `user` only if the email contact of the account's identity
  -- is active or unconfirmed, no local password has to be changed, an account without a second factor
  -- need not have one, and, where the account has one and the method asks for it, this login's
  -- one-time password was accepted as the account's, or the caller has a valid bypass cookie.
  pub account_login-IsGuarded :
      (s : r.State) (reply : Reply) (content : Content)
      → (account_login r codec sha1 sessions metrics config p acc a s).1 ≡ ok reply
      → reply.session ≡ some content
      → (opened : IsOpened r codec sha1 sessions metrics config p acc a
          (attempted r codec sha1 sessions metrics config p a s).0
          content)
        × IsGuarded (attempted r codec sha1 sessions metrics config p a s).0 content opened
  account_login-IsGuarded s reply content h given =
      let opened =
        (account_login-IsOpened r codec sha1 sessions metrics config p acc a s reply content h
          given).1 in
      (opened, opened-IsGuarded _ content opened)
