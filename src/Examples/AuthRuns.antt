-- ===== src/Examples/AuthRuns.antt =====
-- Logins of two accounts.
use Prim.Native.String.{String}
use apicrud.Prelude.{true, false, none, some, [], ◌∷◌, ◌≡◌, refl, text_eq, option_eq}
use apicrud.Prelude.Int.{pos}
use apicrud.Python.Result.{ok}
use apicrud.Python.Text.{show, truthy, join, last_chars}
use apicrud.Python.Number.{decimal}
use apicrud.Python.Sort.{sort, insert_sorted}
use apicrud.Python.PySet.{contains}
use apicrud.Python.Dict.{lookup, insert, merge}
use apicrud.Redis.{Redis}
use apicrud.Redis.Table.{table, Table, empty_table}
use apicrud.Access.{AccessControl}
use apicrud.Session.{Content, Codec, Config, session_key, token_of, content_of, create}
use apicrud.Grants.{undefined, is_set}
use apicrud.RateLimit.{
  interval_of, rate_key, within, count_call, counted_call, limited, call_for, call,
}
use apicrud.Metrics.{
  Metrics, increment, store_counter, store_style, store_metric, store, counter, metric_key,
  default_labels,
}
use apicrud.Auth.{AuthConfig, Account}
use apicrud.Auth.Roles.{
  is_direct, totp_bypass, contact_roles, bypass_roles, choose_roles, login_of, with_session,
  with_roles, login_accepted,
}
use apicrud.Auth.Login.{
  known, rejected, Providers, Attempt, refuse, letters, items_of, try_items, unpacked, accept,
  settle, settle_tried, settle_totp, with_otp, identify_by, is_second, identify, unless_locked,
  attempted, account_login,
}
use apicrud.Auth.Login.Method.{named_method_refused}
use apicrud.Auth.Login.Opened.{IsOpened, account_login-IsOpened}
use apicrud.Auth.Login.Guarded.{IsGuarded, account_login-IsGuarded}

abbrev plain : Codec Content
plain = record { seal = λ iv c. c; unseal = λ c. some c; unseal-seal = λ iv c. refl }

abbrev store_of_values : Redis Content
store_of_values = table Content

abbrev empty : Table Content
empty = empty_table Content

abbrev no_sha1 : String → String
no_sha1 secret = secret

abbrev settings : AuthConfig
settings = record {
  login_session_limit = 14400;
  login_admin_limit = 7200;
  login_attempts_max = pos 5;
  login_lockout_interval = 600;
  login_mfa_required = true;
  login_mfa_external = false;
  auth_methods = "local" ∷ "ldap" ∷ [];
  auth_params = "google" ∷ [];
}

-- an account with a second factor
abbrev guarded : Account
guarded = record {
  id = "x-1";
  uid = "u-1";
  is_admin = false;
  password_must_change = false;
  totp = true;
  identity = "a@b.net";
}

abbrev sessions : Config
sessions = record { jwt_issuer = "apicrud"; ttl = 1200 }

abbrev metrics : Metrics
metrics = record {
  uid = none;
  metrics =
      (
        "logins_success_total",
        record { style = counter; scope = "instance"; period = "day"; notify = 0 },
      )
      ∷ (
        "logins_fail_total",
        record { style = counter; scope = "instance"; period = "day"; notify = 0 },
      )
      ∷ [];
  instance_id = "host-1";
  sends = false;
  granted = λ name. undefined;
}

abbrev nobody : AccessControl
nobody = record {
  policies = [];
  privacy_levels = [];
  private_res = record { resource = "list"; attr = "list_id" };
  resource = none;
  model_has_privacy = false;
  auth = none;
  uid = none;
  account_id = none;
  auth_method = none;
  identity = none;
  apikey_id = none;
  auth_ids = [];
}

abbrev simple : Account
simple = record guarded { totp = false }

abbrev providers : Providers store_of_values.State
providers = record {
  local = ok (known simple);
  ldap = ok (rejected 404);
  totp = λ s. (s, ok (rejected 403));
  oauth2 = 302;
}

abbrev attempt : Attempt
attempt = record {
  username = "alice";
  method = none;
  has_otp = false;
  caller = record { apikey = none; username = none };
  contact = λ account. some "active";
  member_roles = λ account. [];
  cookie = none;
  granted = λ uid. undefined;
  now = 100;
  up = true;
  piped = true;
  fresh = record { token = "Rabcd123"; exp = "1700000000"; iv = "0123456789abcdef" };
}

abbrev open_settings : AuthConfig
open_settings = record settings { login_mfa_required = false }

abbrev alice : Content
alice =
    ("auth", some "user")
    ∷ ("exp", some "1700000000")
    ∷ ("iss", some "apicrud")
    ∷ ("jti", some "Rabcd123")
    ∷ ("sub", some "u-1")
    ∷ ("acc", some "x-1")
    ∷ ("identity", some "a@b.net")
    ∷ ("method", some "local")
    ∷ []

account_login-IsOpened_example :
    ((attempted store_of_values plain no_sha1 sessions metrics open_settings providers attempt
        empty).1
      ≡ ok false)
    × IsOpened store_of_values plain no_sha1 sessions metrics open_settings providers nobody attempt
        (attempted store_of_values plain no_sha1 sessions metrics open_settings providers attempt
          empty).0
        alice
unfolding account_login attempted unless_locked call call_for limited counted_call within is_set
    interval_of rate_key show decimal truthy identify is_second identify_by settle_tried try_items
    items_of accept login_accepted totp_bypass choose_roles bypass_roles contact_roles is_direct
    contains with_roles with_session create content_of token_of session_key last_chars merge insert
    join login_of unpacked settle store store_metric store_style store_counter increment metric_key
    default_labels sort insert_sorted lookup count_call
account_login-IsOpened_example =
    account_login-IsOpened store_of_values plain no_sha1 sessions metrics open_settings providers
      nobody attempt empty (record { code = 201; session = some alice }) alice refl refl

-- the second factor of an account that has one
abbrev waiting : AccessControl
waiting = record nobody { auth = some ("pendingtotp" ∷ []); auth_method = some "local" }

abbrev with_factor : Providers store_of_values.State
with_factor = record providers { totp = λ s. (s, ok (known guarded)) }

abbrev second : Attempt
second = record attempt { has_otp = true }

account_login-IsGuarded_example :
    (opened : IsOpened store_of_values plain no_sha1 sessions metrics settings with_factor waiting
      second
      (attempted store_of_values plain no_sha1 sessions metrics settings with_factor second empty).0
      alice)
    × IsGuarded store_of_values plain no_sha1 sessions metrics settings with_factor waiting second
        (attempted store_of_values plain no_sha1 sessions metrics settings with_factor second
          empty).0
        alice
        opened
unfolding account_login attempted unless_locked call call_for limited counted_call within is_set
    interval_of rate_key show decimal truthy identify is_second identify_by settle_totp with_otp
    try_items items_of accept login_accepted totp_bypass choose_roles bypass_roles contact_roles
    is_direct contains with_roles with_session create content_of token_of session_key last_chars
    merge insert join login_of unpacked settle store store_metric store_style store_counter
    increment metric_key default_labels sort insert_sorted lookup count_call
account_login-IsGuarded_example =
    account_login-IsGuarded store_of_values plain no_sha1 sessions metrics settings with_factor
      waiting second empty (record { code = 201; session = some alice }) alice refl refl

abbrev by_name : Attempt
by_name = record attempt { method = some "local" }

named_method_refused_example : (refuse 403).session ≡ none
unfolding account_login attempted unless_locked call call_for limited counted_call within is_set
    interval_of rate_key show decimal truthy identify is_second identify_by settle_tried try_items
    items_of letters contains settle store store_metric store_style store_counter increment
    metric_key default_labels sort insert_sorted lookup count_call join
named_method_refused_example =
    named_method_refused store_of_values plain no_sha1 sessions metrics open_settings providers
      nobody by_name empty "local" (refuse 403) refl refl refl refl refl refl
