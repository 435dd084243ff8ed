-- ===== src/Totp/Login/Spent.antt =====
-- apicrud/auth/totp_func.py, login: a backup code that is used up.
use Prim.Native.String.{String, count}
use apicrud.Prelude.{
  Bool, true, false, Option, none, some, List, ◌≡◌, refl, ap, if_cases, ◌==◌, text_eq, number_eq,
  All,
}
use apicrud.Python.Result.{Result, ok}
use apicrud.Redis.{Redis}
use apicrud.Access.{AccessControl}
use apicrud.Session.{Content, Codec, Config}
use apicrud.Metrics.{Metrics}
use apicrud.Aes.{Bytes, Cipher, decrypt_bin}
use apicrud.Auth.Roles.{Fresh}
use apicrud.Totp.{Guarded, Hashing, TotpConfig}
use apicrud.Totp.Codes.Redeem.{IsHash, joined, bytes_of, redeem, snip-joined}
use apicrud.Totp.Login.{
  Ended, refused, with_cookie, give_cookie, unless_replayed, block_replay, by_code, login_account,
  spend_code, snipped,
}

-- The branch for a backup code, on codes that decrypt to a list of hashes.
module _ (cipher : Cipher) (h : Hashing) (otp : String) where
  pub spend_code_lem :
      (g : Guarded) (stored : Option Bytes) (enc : Bytes) (codes : List Bytes)
      → stored ≡ some enc
      → decrypt_bin cipher enc ≡ ok (joined codes)
      → All IsHash codes
      → spend_code cipher h otp g stored ≡ ok (snipped g (bytes_of (redeem (h.md5 otp) codes)))
  unfolding spend_code
  spend_code_lem g stored enc codes e plain full = rw e (
      rw plain
        (ap (λ (found : Option Bytes). ok (snipped g found)) (snip-joined (h.md5 otp) codes full)))

module _ {B : Type 0} (r : Redis B) (codec : Codec B) (sessions : Config) (metrics : Metrics)
    (cipher : Cipher) (h : Hashing) (config : TotpConfig) (acc : AccessControl) (otp : String)
    (fresh : Fresh) where
  with_cookie_account :
      (g : Guarded) (made : r.State × Option Content)
      → (with_cookie r codec sessions metrics cipher h config acc g made).1 ≡ g
  unfolding with_cookie
  with_cookie_account g (s, none) = refl
  with_cookie_account g (s, some session) = refl

  give_cookie_account :
      (g : Guarded) (s : r.State)
      → (give_cookie r codec sessions metrics cipher h config acc g fresh s).1 ≡ g
  unfolding give_cookie
  give_cookie_account g s =
      if_cases (λ (l : r.State × Guarded × Result Ended). l.1 ≡ g) (config.cookie_limit == 0) _ _
        (λ without. refl) (λ given. with_cookie_account g _)

  replayed_account :
      (g : Guarded) (claimed : r.State × Bool)
      → (unless_replayed r codec sessions metrics cipher h config acc g fresh claimed).1 ≡ g
  unfolding unless_replayed
  replayed_account g (s, false) = refl
  replayed_account g (s, true) = give_cookie_account g s

  block_replay_account :
      (up : Bool) (g : Guarded) (s : r.State)
      → (block_replay r codec sessions metrics cipher h config up acc otp g fresh s).1 ≡ g
  unfolding block_replay
  block_replay_account false g s = refl
  block_replay_account true g s = replayed_account g _

  -- the account behind a test of a backup code, and whether the test failed
  abbrev Spends : Guarded → Option (List Bytes) → r.State × Guarded × Result Ended → Type 0
  Spends g none logged = (logged.1 ≡ g) × (logged.2 ≡ ok (refused 403))
  Spends g (some rest) logged = logged.1 ≡ record g { backup_codes = some (joined rest) }

  by_code-Spends :
      (up : Bool) (g : Guarded) (left : Option (List Bytes)) (s : r.State)
      → Spends g left (
          by_code r codec sessions metrics cipher h config up acc otp g fresh
            (ok (snipped g (bytes_of left)))
            s)
  unfolding by_code snipped
  by_code-Spends up g none s = (refl, refl)
  by_code-Spends up g (some rest) s = block_replay_account up _ s

  -- A login with a backup code, against stored codes that decrypt to the bytes of a list of hashes:
  -- where no hash is that of the code, the login is refused with status 403 and the account stays as
  -- it is; otherwise the first such hash is gone from the account, however the login ends, and the
  -- hashes that are left stand there as they are, not encrypted.
  pub login-Spends :
      (up : Bool) (g : Guarded) (s : r.State) (enc : Bytes) (codes : List Bytes)
      → g.backup_codes ≡ some enc
      → decrypt_bin cipher enc ≡ ok (joined codes)
      → All IsHash codes
      → (count otp == 8) ≡ true
      → Spends g
          (redeem (h.md5 otp) codes)
          (login_account r codec sessions metrics cipher h config up acc otp g fresh s)
  unfolding login_account
  login-Spends up g s enc codes stored plain full short =
      rw (short, spend_code_lem cipher h otp g g.backup_codes enc codes stored plain full)
        (by_code-Spends up g (redeem (h.md5 otp) codes) s)
