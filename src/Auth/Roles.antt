-- ===== src/Auth/Roles.antt =====
-- apicrud/session_auth.py: SessionAuth.login_accepted and totp_bypass.
pub mod Factor
use apicrud.Prelude.{
  ℕ, Bool, true, false, not, ◌&&◌, ◌||◌, Option, none, some, String, ◌⧺◌, List, [], ◌∷◌, ◌++◌,
  if◌then◌else◌, ◌==◌, text_eq, option_eq,
}
use apicrud.Python.Result.{Exn, Result, ok, err, ◌>>=◌}
use apicrud.Python.Text.{show}
use apicrud.Python.PySet.{contains}
use apicrud.Redis.{Redis}
use apicrud.Access.{AccessControl}
use apicrud.Access.Rbac.{roles_of}
use apicrud.Session.{Content, Codec, Config, Login, create, get_session}
use apicrud.Metrics.{Metrics, Amount, Send, store}
use apicrud.Auth.{AuthConfig, Account}

-- method in ('local', 'ldap')
unfoldable pub is_direct : Option String → Bool
is_direct method = method == some "local" || method == some "ldap"

-- acc.auth and 'pendingtotp' in acc.auth
abbrev pub is_pending : AccessControl → Bool
is_pending acc = contains "pendingtotp" (roles_of acc)

-- the truth value of a session: a dict, or None
abbrev has_content : Option Content → Bool
has_content none = false
has_content (some []) = false
has_content (some (entry ∷ content)) = true

-- `cookie` is the value of the bypass cookie in the request, if there is one
unfoldable pub totp_bypass :
    {B : Type 0} (r : Redis B) → Codec B → Bool → r.State → String → Option String → Result Bool
totp_bypass r codec up s uid none = ok false
totp_bypass r codec up s uid (some cookie) = do
  found ← get_session r codec up s (some uid) cookie none
  ok (has_content found)

-- what a login reads besides the account: `contact` is the status of the email contact of the
-- identity, if there is one, and `member_roles` is what get_roles returns, if there is a model for it
pub record Situation : Type 0 where
  pub method : Option String
  pub pending : Bool
  pub contact : Option String
  pub member_roles : List String

abbrev pub duration_of : AuthConfig → Account → ℕ
duration_of config account =
    if account.is_admin then config.login_admin_limit else config.login_session_limit

-- the roles by the status of the contact; NoResultFound where there is none
unfoldable pub contact_roles :
    AuthConfig → Account → Situation → Option String → Result (List String × ℕ)
contact_roles config account at none = err Exn.no_result_found
contact_roles config account at (some status) =
    if status == "active" || status == "unconfirmed"
    then ok (
      (if account.is_admin then "admin" ∷ "user" ∷ [] else "user" ∷ []) ++ at.member_roles,
      duration_of config account,
    )
    else ok ([], duration_of config account)

-- `elif not self.totp_bypass(account.uid) and …`, and the branches behind it
unfoldable pub bypass_roles :
    AuthConfig → Account → Situation → Bool → Result Bool → Result (List String × ℕ)
bypass_roles config account at challenged (err e) = err e
bypass_roles config account at challenged (ok bypass) =
    if not bypass && challenged
    then ok ("pendingtotp" ∷ [], 120)
    else contact_roles config account at at.contact

-- the roles and the duration of the session: the `if … elif … else` of login_accepted
unfoldable pub choose_roles :
    AuthConfig → Account → Situation → Result Bool → Result (List String × ℕ)
choose_roles config account at bypass =
    let guarded = is_direct at.method || config.login_mfa_external in
    if account.password_must_change && at.method == some "local"
    then ok ("person" ∷ "pwchange" ∷ [], 300)
    else if not account.totp && config.login_mfa_required && guarded
    then ok ("mfarequired" ∷ [], 300)
    else bypass_roles config account at (account.totp && guarded && not at.pending) bypass

-- what login_accepted returns: three values with the session's content and status 201, a redirection,
-- or the two values of db_abort
pub data Answer : Type 0 where
  accepted : Content → Answer
  redirected : Content → Answer
  aborted : Answer

-- the random values and the time that a call reads
pub record Fresh : Type 0 where
  pub token : String
  pub exp : String
  pub iv : String

unfoldable pub login_of : Account → Situation → List String → ℕ → Fresh → Login
login_of account at roles duration fresh = record {
  uid = some account.uid;
  roles = roles;
  key_id = none;
  nonce = none;
  ttl = some duration;
  extra =
      ("acc", some account.id) ∷ ("identity", some account.identity) ∷ ("method", at.method) ∷ [];
  random_token = fresh.token;
  exp = fresh.exp;
  iv = fresh.iv;
}

module _ {B : Type 0} (r : Redis B) (codec : Codec B) (sessions : Config) (metrics : Metrics) where
  abbrev pub answer_of : Option String → Content → Result Bool → Result Answer
  answer_of method content (err e) = err e
  answer_of method content (ok b) =
      ok (if is_direct method then accepted content else redirected content)

  -- the part behind g.session.create
  unfoldable pub with_session :
      Situation → List String → Option Content → r.State → r.State × Result Answer
  with_session at roles none s = (s, ok aborted)
  with_session at roles (some content) s =
      let (s', sent, stored) =
        store r metrics "logins_success_total" (("method=" ⧺ show at.method) ∷ []) Amount.absent
          s in
      if contains "pendingtotp" roles
      then (s, answer_of at.method content (ok true))
      else (s', answer_of at.method content stored)

  unfoldable pub with_roles :
      Bool
      → Account
      → Situation
      → Fresh
      → Result (List String × ℕ)
      → r.State
      → r.State × Result Answer
  with_roles up account at fresh (err e) s = (s, err e)
  with_roles up account at fresh (ok (roles, duration)) s =
      let (s', content) = create r codec sessions up (login_of account at roles duration fresh) s in
      with_session at roles content s'

  unfoldable pub login_accepted :
      AuthConfig
      → Bool
      → Account
      → Situation
      → Option String
      → Fresh
      → r.State
      → r.State × Result Answer
  login_accepted config up account at cookie fresh s =
      with_roles up account at fresh
        (choose_roles config account at (totp_bypass r codec up s account.uid cookie)) s
