-- ===== src/Totp/Enroll.antt =====
-- apicrud/auth/totp.py: AuthTOTP.generate and register. The proofs are in the module below.
pub mod Backup
use apicrud.Prelude.{
  ℕ, zero, suc, ◌+◌, Bool, true, false, not, ◌||◌, Option, none, some, String, ◌⧺◌, List, [], ◌∷◌,
  if◌then◌else◌, ◌==◌, text_eq, option_eq,
}
use apicrud.Python.Result.{Exn, Result, ok, err, ◌>>=◌}
use apicrud.Python.Text.{show, truthy}
use apicrud.Redis.{Redis}
use apicrud.Database.{Session, commit, rollback}
use apicrud.Access.{AccessControl}
use apicrud.Session.{Content, Codec, Config, Login, create, get_arg}
use apicrud.Aes.{Bytes, Cipher, encrypt_bin}
use apicrud.Auth.Roles.{Fresh}
use apicrud.Totp.{Guarded, Hashing, TotpConfig}
use apicrud.Totp.Codes.Redeem.{joined}

-- what the two methods answer: a status, the session with a new secret, or the backup codes and a
-- header
pub data Enrolled : Type 0 where
  turned_down : ℕ → Enrolled
  generated : Content → Enrolled
  registered : List String → String → Enrolled

-- `for i in range(…)`: the codes that are drawn
unfoldable pub backup_codes : (ℕ → String) → ℕ → ℕ → List String
backup_codes draw i zero = []
backup_codes draw i (suc n) = draw i ∷ backup_codes draw (i + 1) n

unfoldable pub hashed : Hashing → List String → List Bytes
hashed h [] = []
hashed h (code ∷ codes) = h.md5 code ∷ hashed h codes

-- the header that cancels the cookie of an earlier bypass
unfoldable pub cancel_header : TotpConfig → String
cancel_header config =
    config.cookie_name
    ⧺ ("=; Domain="
        ⧺ (show config.hostname
            ⧺ ("; Path="
                ⧺ (config.base_url
                    ⧺ ("/auth; expires=Sat, Jan 01 2000 00:00:00 UTC; "
                        ⧺ "HttpOnly; SameSite=Strict; Secure")))))

module _ {B : Type 0} (r : Redis B) (codec : Codec B) where
  -- the session that generate makes: `totp` is the new secret, `uri` its provisioning URI
  unfoldable pub secret_login : AccessControl → String → String → Fresh → Login
  secret_login acc totp uri fresh = record {
    uid = acc.uid;
    roles = "pendingtotp" ∷ [];
    key_id = none;
    nonce = none;
    ttl = some 120;
    extra = ("totp", some totp) ∷ ("uri", some uri) ∷ [];
    random_token = fresh.token;
    exp = fresh.exp;
    iv = fresh.iv;
  }

  -- dict(g.session.create(…))
  unfoldable pub as_dict : r.State × Option Content → r.State × Result Enrolled
  as_dict (s, none) = (s, err Exn.type_error)
  as_dict (s, some content) = (s, ok (generated content))

  -- generate, for the account that the query finds; behind an exception of the query, the call of
  -- dict with a text raises ValueError
  unfoldable pub generate :
      Config
      → Bool
      → AccessControl
      → (totp uri : String) → Fresh
      → Option Guarded
      → r.State
      → r.State × Result Enrolled
  generate sessions up acc totp uri fresh none s = (s, err Exn.value_error)
  generate sessions up acc totp uri fresh (some g) s =
      if truthy g.totp_secret
      then (s, ok (turned_down 403))
      else as_dict (create r codec sessions up (secret_login acc totp uri fresh) s)

module _ (cipher : Cipher) (h : Hashing) (config : TotpConfig) where
  -- the commit; `fits` says whether the database takes it without an exception
  unfoldable pub finish_register :
      Bool
      → List String
      → Guarded
      → Session (Option Guarded)
      → Session (Option Guarded) × Result Enrolled
  finish_register fits codes g s =
      if fits
      then (commit (record s { now = some g }), ok (registered codes (cancel_header config)))
      else (rollback s, ok (turned_down 500))

  unfoldable pub enroll :
      Bool
      → String
      → List String
      → Guarded
      → Result Bytes
      → Session (Option Guarded)
      → Session (Option Guarded) × Result Enrolled
  enroll fits totp_secret codes g (err e) s = (s, err e)
  enroll fits totp_secret codes g (ok enc) s =
      finish_register fits codes
        (record g { totp_secret = some totp_secret; backup_codes = some enc }) s

  -- behind the test of the session: `current` is the one-time password of the moment for a secret, and
  -- `iv` the initialization vector that encrypt draws
  unfoldable pub register_account :
      (String → String)
      → (draw : ℕ → String) (count : ℕ) (iv : Bytes) (fits : Bool)
      → (totp_secret : String) (otp_first : Option String) → Option Guarded
      → Session (Option Guarded)
      → Session (Option Guarded) × Result Enrolled
  register_account current draw count iv fits totp_secret otp_first none s =
      (s, err Exn.value_error)
  register_account current draw count iv fits totp_secret otp_first (some g) s =
      if truthy g.totp_secret || not (otp_first == some (current totp_secret))
      then (s, ok (turned_down 403))
      else enroll fits totp_secret (backup_codes draw 0 count) g
          (encrypt_bin cipher iv (joined (hashed h (backup_codes draw 0 count)))) s

  -- `if not totp_secret`
  unfoldable pub with_secret :
      (String → Session (Option Guarded) → Session (Option Guarded) × Result Enrolled)
      → Result (Option String)
      → Session (Option Guarded)
      → Session (Option Guarded) × Result Enrolled
  with_secret next (err e) s = (s, err e)
  with_secret next (ok none) s = (s, ok (turned_down 403))
  with_secret next (ok (some secret)) s =
      if secret == "" then (s, ok (turned_down 403)) else next secret s

  -- register, for the account in the database, and a nonce from the body
  unfoldable pub register :
      {B : Type 0} (r : Redis B)
      → Codec B
      → Bool
      → AccessControl
      → (nonce : String) (otp_first : Option String) → (String → String)
      → (draw : ℕ → String) (count : ℕ) (iv : Bytes) (fits : Bool) → r.State
      → Session (Option Guarded)
      → Session (Option Guarded) × Result Enrolled
  register r codec up acc nonce otp_first current draw count iv fits redis s =
      with_secret (λ secret t. register_account current draw count iv fits secret otp_first t.now t)
        (get_arg r codec up redis acc.uid nonce "totp" none) s
