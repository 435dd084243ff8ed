-- ===== src/Totp.antt =====
-- apicrud/auth/totp.py and totp_func.py: the second factor, by a one-time password or a backup code.
-- The account as both files read it, and what neither implements: MD5, and the test of a one-time
-- password (pyotp) at the time of the call.
pub mod Codes
pub mod Login
pub mod Enroll
use apicrud.Prelude.{ℕ, Bool, Option, String}
use apicrud.Aes.{Bytes}
use apicrud.Auth.{Account}

pub record Guarded : Type 0 where
  pub account : Account
  pub totp_secret : Option String
  pub backup_codes : Option Bytes

pub record Hashing : Type 0 where
  pub md5 : String → Bytes
  pub verify : String → String → Bool

-- the settings that the methods read; `hostname` is that of PUBLIC_URL
pub record TotpConfig : Type 0 where
  pub cookie_limit : ℕ
  pub cookie_name : String
  pub hostname : Option String
  pub base_url : String
