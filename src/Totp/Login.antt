-- ===== src/Totp/Login.antt =====
-- apicrud/auth/totp_func.py: login. The proofs are in the modules below.
pub mod Replay
pub mod Spent
use Prim.Native.String.{count}
use apicrud.Prelude.{
  ℕ, Bool, true, false, not, Option, none, some, String, ◌⧺◌, List, [], ◌∷◌, if◌then◌else◌, ◌==◌,
  text_eq, option_eq, number_eq,
}
use apicrud.Python.Result.{Exn, Result, ok, err, ◌>>=◌}
use apicrud.Python.Text.{show, truthy}
use apicrud.Python.Number.{decimal}
use apicrud.Python.Dict.{lookup}
use apicrud.Redis.{Redis, text, set_nx}
use apicrud.Access.{AccessControl}
use apicrud.Session.{Content, Codec, Config, Login, create}
use apicrud.Metrics.{Metrics, Amount, store}
use apicrud.Aes.{Bytes, Cipher, decrypt_bin}
use apicrud.Auth.Roles.{Fresh}
use apicrud.Totp.{Guarded, Hashing, TotpConfig}
use apicrud.Totp.Codes.{snip}

-- 'totp:%s:%s' % (acc.account_id, otp)
unfoldable pub totp_key : Option String → String → String
totp_key account_id otp = "totp:" ⧺ (show account_id ⧺ (":" ⧺ otp))

-- the account where a code matches
unfoldable pub snipped : Guarded → Option Bytes → Option Guarded
snipped g none = none
snipped g (some codes) = some (record g { backup_codes = some codes })

-- the branch for a backup code, up to `if not valid`; decrypt raises TypeError on None
unfoldable pub spend_code :
    Cipher → Hashing → String → Guarded → Option Bytes → Result (Option Guarded)
spend_code cipher h otp g none = err Exn.type_error
spend_code cipher h otp g (some enc) = do
  codes ← decrypt_bin cipher enc
  ok (snipped g (snip (h.md5 otp) codes))

-- how a login ends: with a status, or with the account and the header of the cookie
pub data Ended : Type 0 where
  refused : ℕ → Ended
  accepted : Option String → Ended

abbrev jti_of : Option (Option String) → Option String
jti_of none = none
jti_of (some jti) = jti

-- the Set-Cookie header
unfoldable pub cookie_header : TotpConfig → AccessControl → Content → String
cookie_header config acc session =
    config.cookie_name
    ⧺ ("="
        ⧺ (show (jti_of (lookup "jti" session))
            ⧺ ("; Path="
                ⧺ ((if truthy acc.apikey_id then "/" else config.base_url ⧺ "/auth")
                    ⧺ ("; Max-Age="
                        ⧺ (decimal config.cookie_limit
                            ⧺ (if config.hostname == some "localhost"
                                then ""
                                else "; Domain="
                                  ⧺ (show config.hostname
                                      ⧺ "; HttpOnly; SameSite=Strict; Secure"))))))))

-- the session behind the cookie
unfoldable pub cookie_login : TotpConfig → AccessControl → Guarded → Fresh → Login
cookie_login config acc g fresh = record {
  uid = acc.uid;
  roles = [];
  key_id = none;
  nonce = none;
  ttl = some config.cookie_limit;
  extra = ("acc", some g.account.id) ∷ ("identity", some g.account.identity) ∷ [];
  random_token = fresh.token;
  exp = fresh.exp;
  iv = fresh.iv;
}

module _ {B : Type 0} (r : Redis B) (codec : Codec B) (sessions : Config) (metrics : Metrics)
    (cipher : Cipher) (h : Hashing) (config : TotpConfig) where
  -- redis, the account as it is committed, and the end
  abbrev pub Logged : Type 0
  Logged = r.State × Guarded × Result Ended

  -- ses.get('jti') on what g.session.create returns
  unfoldable pub with_cookie : AccessControl → Guarded → r.State × Option Content → Logged
  with_cookie acc g (s, none) = (s, g, err Exn.attribute_error)
  with_cookie acc g (s, some session) =
      (s, g, ok (accepted (some (cookie_header config acc session))))

  unfoldable pub give_cookie : AccessControl → Guarded → Fresh → r.State → Logged
  give_cookie acc g fresh s =
      if config.cookie_limit == 0
      then (s, g, ok (accepted none))
      else with_cookie acc g (create r codec sessions true (cookie_login config acc g fresh) s)

  -- what the SET with NX gives
  unfoldable pub unless_replayed : AccessControl → Guarded → Fresh → r.State × Bool → Logged
  unless_replayed acc g fresh (s, false) = (s, g, ok (refused 403))
  unless_replayed acc g fresh (s, true) = give_cookie acc g fresh s

  -- from `Block replay of same otp`; `up` says whether redis answers
  unfoldable pub block_replay : Bool → AccessControl → String → Guarded → Fresh → r.State → Logged
  block_replay false acc otp g fresh s = (s, g, ok (refused 500))
  block_replay true acc otp g fresh s =
      unless_replayed acc g fresh (set_nx r s (totp_key acc.account_id otp) (text "") (some 60))

  unfoldable pub by_code :
      Bool → AccessControl → String → Guarded → Fresh → Result (Option Guarded) → r.State → Logged
  by_code up acc otp g fresh (err e) s = (s, g, err e)
  by_code up acc otp g fresh (ok none) s = (s, g, ok (refused 403))
  by_code up acc otp g fresh (ok (some g')) s = block_replay up acc otp g' fresh s

  unfoldable pub wrong_otp : Guarded → r.State → Logged
  wrong_otp g s =
      let (s', sent, stored) = store r metrics "logins_fail_total" [] Amount.absent s in
      (s', g, (do done ← stored; ok (refused 403)))

  unfoldable pub by_totp : Bool → AccessControl → String → Guarded → Fresh → r.State → Logged
  by_totp up acc otp g fresh s =
      if not (truthy g.totp_secret)
      then (s, g, ok (refused 403))
      else if not (h.verify (show g.totp_secret) otp)
      then wrong_otp g s
      else block_replay up acc otp g fresh s

  -- login, for the account that the query finds
  unfoldable pub login_account : Bool → AccessControl → String → Guarded → Fresh → r.State → Logged
  login_account up acc otp g fresh s =
      if count otp == 8
      then by_code up acc otp g fresh (spend_code cipher h otp g g.backup_codes) s
      else by_totp up acc otp g fresh s

  -- `query.one()`, and the rest; NoResultFound is caught
  unfoldable pub login_found :
      Bool
      → AccessControl
      → String
      → Fresh
      → Option Guarded
      → r.State
      → r.State × Option Guarded × Result Ended
  login_found up acc otp fresh none s = (s, none, ok (refused 403))
  login_found up acc otp fresh (some g) s =
      let (s', g', ended) = login_account up acc otp g fresh s in (s', some g', ended)

  -- the query is by name with an API key, and by the id in the session otherwise
  unfoldable pub login :
      (by_name by_id : Option String → Option Guarded)
      → Bool
      → AccessControl
      → (username otp : String) → Fresh
      → r.State
      → r.State × Option Guarded × Result Ended
  login by_name by_id up acc username otp fresh s =
      login_found up acc otp fresh
        (if truthy acc.apikey_id then by_name (some username) else by_id acc.account_id) s
