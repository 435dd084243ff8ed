-- ===== src/Auth/Login.antt =====
-- apicrud/session_auth.py: SessionAuth.account_login.
pub mod Settle
pub mod Method
pub mod Known
pub mod Opened
pub mod Guarded
use Prim.Native.String.{String}
use apicrud.Prelude.{
  ℕ, Bool, true, false, not, ◌&&◌, ◌||◌, Option, none, some, ◌⧺◌, List, [], ◌∷◌, if◌then◌else◌,
  ◌==◌, text_eq, option_eq, number_eq,
}
use apicrud.Prelude.Int.{ℤ}
use apicrud.Python.Result.{Exn, Result, ok, err, ◌>>=◌}
use apicrud.Python.Text.{show, truthy}
use apicrud.Python.PySet.{contains}
use apicrud.Redis.{Redis}
use apicrud.Access.{AccessControl}
use apicrud.Access.Rbac.{roles_of}
use apicrud.Session.{Content, Codec, Config}
use apicrud.Grants.{Limit, number}
use apicrud.RateLimit.{Limiter, Caller, Call, call, reset}
use apicrud.Metrics.{Metrics, Amount, store}
use apicrud.Auth.{AuthConfig, Account}
use apicrud.Auth.Roles.{
  Situation, Answer, accepted, redirected, aborted, Fresh, login_accepted, is_pending,
}

-- what a provider of logins answers: status 200 and the account, or another status
pub data Verdict : Type 0 where
  known : Account → Verdict
  rejected : ℕ → Verdict

-- the providers, for the caller's name and password: local_func.login and ldap_func.login, and
-- totp_func.login with a one-time password, which reads and writes redis; `oauth2` is the status of
-- oauth2_func.login. What they write to the database is not read by the rest of the login.
pub record Providers (S : Type 0) : Type 0 where
  pub local : Result Verdict
  pub ldap : Result Verdict
  pub totp : S → S × Result Verdict
  pub oauth2 : ℕ

-- a request: the arguments, its headers, what the database says of each account, what Grants returns for the
-- uid of a limit of attempts, and the values that the call reads
pub record Attempt : Type 0 where
  pub username : String
  pub method : Option String
  pub has_otp : Bool
  pub caller : Caller
  pub contact : Account → Option String
  pub member_roles : Account → List String
  pub cookie : Option String
  pub granted : String → Limit
  pub now : ℕ
  pub up : Bool
  pub piped : Bool
  pub fresh : Fresh

-- what account_login returns: the status, and the session of an accepted login
pub record Reply : Type 0 where
  pub code : ℕ
  pub session : Option Content

abbrev no_roles : List String → Bool
no_roles [] = true
no_roles (role ∷ roles) = false

abbrev pub refuse : ℕ → Reply
refuse code = record { code = code; session = none }

-- iterating over a string gives its characters
unfoldable pub letters : String → List String
letters String.[] = []
letters (String.◌∷◌ c s) = String.◌∷◌ c "" ∷ letters s

-- items = method if method else self.config.AUTH_METHODS
unfoldable pub items_of : AuthConfig → Option String → List String
items_of config none = config.auth_methods
items_of config (some method) = if method == "" then config.auth_methods else letters method

-- what the loop over the items ends with: the item that knows the account, the last status, or an
-- exception
pub data Tried : Type 0 where
  found : String → Account → Tried
  unknown : ℕ → Tried
  failed : Exn → Tried

abbrev pub verdict_of : {S : Type 0} → Providers S → String → Option (Result Verdict)
verdict_of p item =
    if item == "local" then some p.local else if item == "ldap" then some p.ldap else none

abbrev after_item : String → Option (Result Verdict) → ℕ → (ℕ → Tried) → Tried
after_item item none status next = next status
after_item item (some (err e)) status next = failed e
after_item item (some (ok (known account))) status next = found item account
after_item item (some (ok (rejected code))) status next = next code

-- `for item in items`
unfoldable pub try_items : {S : Type 0} → Providers S → List String → ℕ → Tried
try_items p [] status = unknown status
try_items p (item ∷ items) status =
    after_item item (verdict_of p item) status (λ code. try_items p items code)

abbrev pub has_method : List String → Option String → Bool
has_method methods none = false
has_method methods (some method) = contains method methods

module _ {B : Type 0} (r : Redis B) (codec : Codec B) (sha1 : String → String) (sessions : Config)
    (metrics : Metrics) (config : AuthConfig) (p : Providers r.State) where
  -- the three values of login_accepted: two values or a redirection cannot be unpacked
  unfoldable pub unpacked : Result Answer → Result Reply
  unpacked (err e) = err e
  unpacked (ok (accepted content)) = ok (record { code = 201; session = some content })
  unpacked (ok (redirected content)) = err Exn.unpack_error
  unpacked (ok aborted) = err Exn.unpack_error

  abbrev pub situation : AccessControl → Attempt → Option String → Account → Situation
  situation acc a method account = record {
    method = method;
    pending = is_pending acc;
    contact = a.contact account;
    member_roles = a.member_roles account;
  }

  unfoldable pub accept :
      AccessControl → Attempt → Option String → Account → r.State → r.State × Result Reply
  accept acc a method account s =
      let (s', answer) =
        login_accepted r codec sessions metrics config a.up account (situation acc a method account)
          a.cookie a.fresh s in
      (s', unpacked answer)

  -- the end of account_login, with the method that stands in the label
  unfoldable pub settle : Attempt → Option String → r.State × Result Reply → r.State × Result Reply
  settle a method (s, err e) = (s, err e)
  settle a method (s, ok reply) =
      let (s', sent, stored) =
        store r metrics "logins_fail_total" (("method=" ⧺ show method) ∷ []) Amount.absent s in
      if reply.code == 200 || reply.code == 201
      then (reset r "login.attempt" (some a.username) s, ok reply)
      else (s', (do done ← stored; ok reply))

  unfoldable pub settle_tried : AccessControl → Attempt → Tried → r.State → r.State × Result Reply
  settle_tried acc a (failed e) s = (s, err e)
  settle_tried acc a (unknown status) s = settle a a.method (s, ok (refuse status))
  settle_tried acc a (found item account) s =
      settle a (some item) (accept acc a (some item) account s)

  unfoldable pub settle_totp :
      AccessControl → Attempt → r.State × Result Verdict → r.State × Result Reply
  settle_totp acc a (s, err e) = (s, err e)
  settle_totp acc a (s, ok (rejected code)) = settle a a.method (s, ok (refuse code))
  settle_totp acc a (s, ok (known account)) =
      settle a a.method (accept acc a acc.auth_method account s)

  -- a session that waits for a one-time password: with one in the request, or without
  unfoldable pub with_otp : Bool → AccessControl → Attempt → r.State → r.State × Result Reply
  with_otp true acc a s = settle_totp acc a (p.totp s)
  with_otp false acc a s = settle a a.method (s, ok (refuse 403))

  -- the `if … elif … elif … else` behind the limit of attempts, by the three tests
  unfoldable pub identify_by :
      (second oauth here : Bool) → AccessControl → Attempt → r.State → r.State × Result Reply
  identify_by true oauth here acc a s = with_otp a.has_otp acc a s
  identify_by false true here acc a s = settle a a.method (s, ok (refuse p.oauth2))
  identify_by false false true acc a s =
      settle_tried acc a (try_items p (items_of config a.method) 403) s
  identify_by false false false acc a s = (s, ok (refuse 500))

  -- acc.auth and ('pendingtotp' in acc.auth or (otp and acc.apikey_id))
  unfoldable pub is_second : AccessControl → Attempt → Bool
  is_second acc a =
      is_pending acc || (a.has_otp && truthy acc.apikey_id && not (no_roles (roles_of acc)))

  unfoldable pub identify : AccessControl → Attempt → r.State → r.State × Result Reply
  identify acc a s =
      identify_by (is_second acc a) (has_method config.auth_params a.method)
        (not (truthy a.method) || has_method config.auth_methods a.method) acc a s

  unfoldable pub unless_locked :
      AccessControl → Attempt → r.State × Result Bool → r.State × Result Reply
  unless_locked acc a (s, err e) = (s, err e)
  unless_locked acc a (s, ok true) = (s, ok (refuse 403))
  unless_locked acc a (s, ok false) = identify acc a s

  -- RateLimit(…).call(…)
  unfoldable pub attempted : Attempt → r.State → r.State × Result Bool
  attempted a s =
      call r codec sha1 (record { enable = true; interval = config.login_lockout_interval })
        (record {
          limit = number config.login_attempts_max;
          service = "login.attempt";
          uid = some a.username;
          caller = a.caller;
          now = a.now;
          up = a.up;
          piped = a.piped;
        })
        a.granted s

  unfoldable pub account_login : AccessControl → Attempt → r.State → r.State × Result Reply
  account_login acc a s = unless_locked acc a (attempted a s)
