-- ===== src/Examples/TotpRuns.antt =====
-- A second factor: two backup codes, and a one-time password that is given twice.
use Prim.Native.String.{String}
use apicrud.Prelude.{
  ℕ, true, false, Option, none, some, List, [], ◌∷◌, ◌++◌, ◌≡◌, ◌≢◌, refl, arith, Char, code,
  length, replicate, length-replicate, All, ◌==◌, text_eq, number_eq, option_eq,
}
use apicrud.Python.Result.{Result, ok}
use apicrud.Python.Text.{show, truthy, last_chars, to_list}
use apicrud.Python.Number.{decimal}
use apicrud.Python.Dict.{lookup, insert, merge}
use apicrud.Redis.{Redis}
use apicrud.Redis.Table.{table, Table, empty_table}
use apicrud.Database.{Session}
use apicrud.Access.{AccessControl}
use apicrud.Session.{
  Content, Codec, Config, session_key, token_of, content_of, create, get_arg, get_session, read,
  decoded, checked,
}
use apicrud.Grants.{undefined}
use apicrud.Metrics.{Metrics}
use apicrud.Aes.{
  Bytes, Cipher, missing, pad, stripped, unpad, cbc_decrypt, decrypt_bin, cbc_encrypt, encrypt_bin,
}
use apicrud.Auth.{Account}
use apicrud.Auth.Roles.{Fresh}
use apicrud.Totp.{Guarded, Hashing, TotpConfig}
use apicrud.Totp.Codes.{bytes_eq, scan_codes, snip}
use apicrud.Totp.Codes.Redeem.{joined, redeem, scan_codes_total, snip-joined}
use apicrud.Totp.Login.{
  accepted, by_totp, block_replay, unless_replayed, give_cookie, login_account, login_found, login,
}
use apicrud.Totp.Login.Replay.{login_replayed}
use apicrud.Totp.Login.Spent.{login-Spends}
use apicrud.Totp.Enroll.{
  Enrolled, backup_codes, hashed, cancel_header, finish_register, enroll, register_account,
  with_secret, register,
}
use apicrud.Totp.Enroll.Backup.{IsAccepted, register-IsAccepted}

abbrev plain : Codec Content
plain = record { seal = λ iv c. c; unseal = λ c. some c; unseal-seal = λ iv c. refl }

abbrev store_of_values : Redis Content
store_of_values = table Content

abbrev empty : Table Content
empty = empty_table Content

abbrev sessions : Config
sessions = record { jwt_issuer = "apicrud"; ttl = 1200 }

abbrev metrics : Metrics
metrics = record {
  uid = none;
  metrics = [];
  instance_id = "host-1";
  sends = false;
  granted = λ name. undefined;
}

abbrev bare : Cipher
bare = record {
  seal = λ iv b. b;
  unseal = λ iv b. b;
  b64encode = λ b. b;
  b64decode = λ b. b;
  unseal-seal = λ iv b blocks. refl;
  length-seal = λ iv b blocks. refl;
  b64decode-b64encode = λ b. refl;
}

abbrev iv : Bytes
iv = replicate 16 7

-- a hash by the first character
abbrev first_code : List Char → ℕ
first_code [] = 0
first_code (c ∷ s) = code c

abbrev hashing : Hashing
hashing = record {
  md5 = λ s. replicate 16 (first_code (to_list s));
  verify = λ secret otp. otp == "123456";
}

whole : (s : String) → length (hashing.md5 s) ≡ 16
whole s = length-replicate 16 (first_code (to_list s))

abbrev config : TotpConfig
config = record {
  cookie_limit = 0;
  cookie_name = "mfa";
  hostname = some "localhost";
  base_url = "/api/v1";
}

abbrev alice : Account
alice = record {
  id = "x-1";
  uid = "u-1";
  is_admin = false;
  password_must_change = false;
  totp = true;
  identity = "a@b.net";
}

abbrev acc : AccessControl
acc = record {
  policies = [];
  privacy_levels = [];
  private_res = record { resource = "list"; attr = "list_id" };
  resource = none;
  model_has_privacy = false;
  auth = some ("pendingtotp" ∷ []);
  uid = some "u-1";
  account_id = some "x-1";
  auth_method = none;
  identity = none;
  apikey_id = none;
  auth_ids = [];
}

abbrev fresh : Fresh
fresh = record { token = "Rabcd123"; exp = "1700000000"; iv = "0123456789abcdef" }

abbrev hash_a : Bytes
hash_a = replicate 16 97

abbrev hash_b : Bytes
hash_b = replicate 16 98

abbrev two_codes : List Bytes
two_codes = hash_a ∷ hash_b ∷ []

scan_codes_total_example :
    (found : Option Bytes) × (scan_codes 3 hash_b (joined two_codes) 0 ≡ some found)
scan_codes_total_example = scan_codes_total 2 hash_b (joined two_codes) 0 (omega arith)

snip-joined_example : snip hash_b (joined two_codes) ≡ some hash_a
unfolding redeem
snip-joined_example = snip-joined hash_b two_codes (refl, (refl, tt))

abbrev guarded : Guarded
guarded = record {
  account = alice;
  totp_secret = some "SECRET";
  backup_codes = some (iv ++ (joined two_codes ++ replicate 16 16));
}

login-Spends_example :
    (login_account store_of_values plain sessions metrics bare hashing config true acc "bbbbbbbb"
      guarded fresh empty).1
    ≡ record guarded { backup_codes = some hash_a }
unfolding redeem to_list decrypt_bin cbc_decrypt unpad stripped
login-Spends_example =
    login-Spends store_of_values plain sessions metrics bare hashing config acc "bbbbbbbb" fresh
      true guarded empty (iv ++ (joined two_codes ++ replicate 16 16)) two_codes refl refl
      (refl, (refl, tt)) refl

abbrev by_id : Option String → Option Guarded
by_id id = some guarded

login_replayed_example :
    (login store_of_values plain sessions metrics bare hashing config by_id by_id true acc "alice"
      "123456" fresh
      (store_of_values.tick
        (login store_of_values plain sessions metrics bare hashing config by_id by_id true acc
          "alice" "123456" fresh empty).0
        59)).2
    ≢ ok (accepted none)
unfolding login login_found login_account by_totp block_replay unless_replayed give_cookie truthy
    show
login_replayed_example =
    login_replayed store_of_values plain sessions metrics bare hashing config acc "123456" by_id
      by_id by_id by_id true true "alice" "alice" fresh fresh empty none none 59 (omega arith) refl

abbrev new_account : Guarded
new_account = record { account = alice; totp_secret = none; backup_codes = none }

-- redis, with the session that holds the new secret
abbrev offered : Table Content
offered =
    (create store_of_values plain sessions true
      (record {
        uid = some "u-1";
        roles = "pendingtotp" ∷ [];
        key_id = none;
        nonce = none;
        ttl = some 120;
        extra = ("totp", some "SECRET") ∷ [];
        random_token = "Rabcd123";
        exp = "1700000000";
        iv = "0123456789abcdef";
      })
      empty).0

abbrev drawn : ℕ → String
drawn i = decimal i

abbrev current : String → String
current secret = "987654"

abbrev accounts : Session (Option Guarded)
accounts = record { saved = some new_account; now = some new_account }

abbrev given : List String
given = "0" ∷ "1" ∷ []

abbrev registering : Session (Option Guarded) × Result Enrolled
registering =
    register bare hashing config store_of_values plain true acc "Rabcd123" (some "987654") current
      drawn 2 iv true offered accounts

register-IsAccepted_example :
    (g : Guarded) × (registering.0.saved ≡ some g)
    × (given ≡ backup_codes drawn 0 2)
    × All (IsAccepted hashing whole bare g) given
unfolding register with_secret register_account enroll finish_register backup_codes hashed
    cancel_header get_arg get_session read decoded checked session_key token_of content_of create
    show truthy last_chars lookup merge insert decimal to_list encrypt_bin cbc_encrypt pad missing
register-IsAccepted_example =
    register-IsAccepted hashing whole bare config drawn 2 iv refl store_of_values plain true acc
      "Rabcd123" (some "987654") current true offered accounts given
      "mfa=; Domain=localhost; Path=/api/v1/auth; expires=Sat, Jan 01 2000 00:00:00 UTC; HttpOnly; SameSite=Strict; Secure"
      refl
