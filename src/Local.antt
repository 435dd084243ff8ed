-- ===== src/Local.antt =====
-- apicrud/auth/local_func.py: login with a password, and apicrud/auth/local_user.py: _password_weak and
-- basic. The other methods of LocalUser are in the module below.
pub mod Password
pub mod Token
use Prim.Native.String.{String}
use apicrud.Prelude.{
  ℕ, zero, suc, ◌+◌, Bool, true, false, not, ◌&&◌, ◌||◌, Option, none, some, List, [], ◌∷◌, ◌≡◌,
  Char, code, leb, ltb, if◌then◌else◌, ◌==◌, text_eq, option_eq,
}
use apicrud.Python.Result.{Exn, Result, ok, err, ◌>>=◌}
use apicrud.Python.Text.{truthy, in_text, to_list}
use apicrud.Python.Dict.{lookup}
use apicrud.Python.Sort.{leb_text}
use apicrud.Redis.{Redis}
use apicrud.Session.{Content, Codec, get_session, delete_session}
use apicrud.Auth.{Account}
use apicrud.Auth.Login.{Verdict, known, rejected}

-- sha256_crypt of passlib: `verify` raises an exception on a text that is no hash
pub record Crypt : Type 0 where
  pub hash : (salt password : String) → String
  pub verify : (password hash : String) → Result Bool
  pub verify-hash : (salt password : String) → verify password (hash salt password) ≡ ok true
  pub hash_some : (salt password : String) → (hash salt password == "") ≡ false

-- an account with what this login reads
pub record Local : Type 0 where
  pub account : Account
  pub name : String
  pub password : Option String

-- how the query for the account ends
pub data Lookup : Type 0 where
  padding missing operational : Lookup
  one : Local → Lookup

unfoldable pub by_verify : Local → Result Bool → Result Verdict
by_verify a (err e) = err e
by_verify a (ok false) = ok (rejected 403)
by_verify a (ok true) = ok (known a.account)

-- sha256_crypt.verify(password, account.password), which raises TypeError on None
unfoldable pub verified : Crypt → String → Option String → Result Bool
verified crypt password none = err Exn.type_error
verified crypt password (some hash) = crypt.verify password hash

-- `not password or …`
unfoldable pub by_password : Crypt → Option String → Local → Result Verdict
by_password crypt none a = ok (rejected 403)
by_password crypt (some password) a =
    if password == "" then ok (rejected 403) else by_verify a (verified crypt password a.password)

unfoldable pub by_lookup : Crypt → Option String → Lookup → Result Verdict
by_lookup crypt password padding = ok (rejected 503)
by_lookup crypt password missing = ok (rejected 403)
by_lookup crypt password operational = ok (rejected 500)
by_lookup crypt password (one a) =
    if a.password == some "" then ok (rejected 403) else by_password crypt password a

-- the query: by the identity of the person for a name with @, otherwise by the name of the account
unfoldable pub account_of : (by_identity by_name : String → Lookup) → String → Lookup
account_of by_identity by_name username =
    if in_text "@" username then by_identity username else by_name username

-- login, for what the two queries find
unfoldable pub local_login :
    Crypt
    → (by_identity by_name : String → Lookup) → (username : String) → Option String
    → Result Verdict
local_login crypt by_identity by_name username password =
    by_lookup crypt password (account_of by_identity by_name username)

-- string.ascii_lowercase, ascii_uppercase, digits and punctuation
unfoldable pub is_lower : Char → Bool
is_lower c = leb 97 (code c) && leb (code c) 122

unfoldable pub is_upper : Char → Bool
is_upper c = leb 65 (code c) && leb (code c) 90

unfoldable pub is_digit : Char → Bool
is_digit c = leb 48 (code c) && leb (code c) 57

unfoldable pub is_punctuation : Char → Bool
is_punctuation c =
    (leb 33 (code c) && leb (code c) 47)
    || (leb 58 (code c) && leb (code c) 64)
    || (leb 91 (code c) && leb (code c) 96)
    || (leb 123 (code c) && leb (code c) 126)

-- not set(password).intersection(…), as a number
unfoldable pub lacks : (Char → Bool) → List Char → ℕ
lacks kind [] = 1
lacks kind (c ∷ s) = let rest = lacks kind s in if kind c then 0 else rest

-- (…).count(True) > 1
unfoldable pub password_weak : String → Bool
password_weak password =
    let s = to_list password in
    ltb 1 (lacks is_lower s + lacks is_upper s + lacks is_digit s + lacks is_punctuation s)

-- utcnow().strftime('%s') > session['exp']; None has no order
abbrev pub unexpired : String → Option (Option String) → Result Bool
unexpired now none = ok true
unexpired now (some none) = err Exn.type_error
unexpired now (some (some exp)) = ok (leb_text now exp)

abbrev pub same_subject : String → Option (Option String) → Result Bool
same_subject username none = err Exn.key_error
same_subject username (some sub) = ok (sub == some username)

abbrev pub same_token : String → Option (Option String) → Bool
same_token password none = false
same_token password (some jti) = jti == some password

-- the tests of a session; `false` stands for every value of token_auth but 'ok'
unfoldable pub token_ok : String → (username password : String) → Content → Result Bool
token_ok now username password content =
    if same_token password (lookup "jti" content)
    then (do
      same ← same_subject username (lookup "sub" content)
      if same then unexpired now (lookup "exp" content) else ok false)
    else ok false

abbrev pub drop_found :
    {B : Type 0} (r : Redis B) → Bool → (username password : String) → Content → r.State → r.State
drop_found r up username password [] s = s
drop_found r up username password (entry ∷ content) s =
    delete_session r up (some username) password none s

unfoldable pub by_token :
    {B : Type 0} (r : Redis B)
    → Bool
    → (username password : String) → Content
    → Result Bool
    → r.State
    → r.State × Result (Option String)
by_token r up username password content (err e) s = (s, err e)
by_token r up username password content (ok false) s =
    (drop_found r up username password content s, ok none)
by_token r up username password content (ok true) s = (s, ok (some username))

unfoldable pub by_session :
    {B : Type 0} (r : Redis B)
    → Bool
    → (now username password : String) → Result (Option Content)
    → r.State
    → r.State × Result (Option String)
by_session r up now username password (err e) s = (s, err e)
by_session r up now username password (ok none) s = (s, ok none)
by_session r up now username password (ok (some content)) s =
    by_token r up username password content (token_ok now username password content) s

-- basic: the user of the request, if its token is that of a session
unfoldable pub basic :
    {B : Type 0} (r : Redis B)
    → Codec B
    → Bool
    → (now username password : String) → r.State
    → r.State × Result (Option String)
basic r codec up now username password s =
    by_session r up now username password (get_session r codec up s (some username) password none) s
