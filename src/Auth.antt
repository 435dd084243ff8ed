-- ===== src/Auth.antt =====
-- apicrud/session_auth.py: class SessionAuth, its settings and the accounts. The methods are in the
-- modules below.
pub mod Roles
pub mod Login
use apicrud.Prelude.{ℕ, Bool, Option, String, List}
use apicrud.Prelude.Int.{ℤ}

-- the settings that the class reads; `auth_params` are the keys of AUTH_PARAMS
pub record AuthConfig : Type 0 where
  pub login_session_limit : ℕ
  pub login_admin_limit : ℕ
  pub login_attempts_max : ℤ
  pub login_lockout_interval : ℕ
  pub login_mfa_required : Bool
  pub login_mfa_external : Bool
  pub auth_methods : List String
  pub auth_params : List String

-- the columns of an account that a login reads; `identity` is its owner's
pub record Account : Type 0 where
  pub id : String
  pub uid : String
  pub is_admin : Bool
  pub password_must_change : Bool
  pub totp : Bool
  pub identity : String
