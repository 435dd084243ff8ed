-- ===== src/Local/Token.antt =====
-- apicrud/auth/local_user.py, basic: the token that every request carries.
use Prim.Native.String.{String}
use apicrud.Prelude.{
  Bool, true, false, Option, none, some, ◌≡◌, refl, ap, ◌∙◌, if◌then◌else◌, ◌==◌, text_eq,
  option_eq, option_beq_iff,
}
use apicrud.Python.Result.{Result, ok, err, >>=-eq-ok}
use apicrud.Python.Dict.{lookup}
use apicrud.Redis.{Redis}
use apicrud.Session.{Content, Codec, get_session}
use apicrud.Local.{unexpired, same_subject, same_token, token_ok, by_token, by_session, basic}

-- a session that the token of a request stands for, and that has not expired
abbrev pub IsCurrent : (now username password : String) → Content → Type 0
IsCurrent now username password content =
    (lookup "jti" content ≡ some (some password))
    × (lookup "sub" content ≡ some (some username))
    × (unexpired now (lookup "exp" content) ≡ ok true)

same_token_lem :
    (password : String) (jti : Option (Option String))
    → same_token password jti ≡ true
    → jti ≡ some (some password)
same_token_lem password none h = absurd (cc)
same_token_lem password (some jti) h = ap some ((option_beq_iff jti (some password)).0 h)

same_subject_lem :
    (username : String) (sub : Option (Option String))
    → same_subject username sub ≡ ok true
    → sub ≡ some (some username)
same_subject_lem username none h = absurd (cc)
same_subject_lem username (some sub) h =
    let same : (sub == some username) ≡ true = cc h in
    ap some ((option_beq_iff sub (some username)).0 same)

subject_first :
    (same : Bool) (rest : Result Bool)
    → (if same then rest else ok false) ≡ ok true
    → (same ≡ true) × (rest ≡ ok true)
subject_first true rest h = (refl, h)
subject_first false rest h = absurd (cc)

token_ok-IsCurrent :
    (now username password : String) (content : Content)
    → token_ok now username password content ≡ ok true
    → IsCurrent now username password content
unfolding token_ok
token_ok-IsCurrent now username password content h =
    let (matches, tests) = subject_first (same_token password (lookup "jti" content)) _ h in
    let (same, is_same, rest) = >>=-eq-ok (same_subject username (lookup "sub" content)) _ tests in
    let (equal, lasts) = subject_first same _ rest in
    (same_token_lem password _ matches, same_subject_lem username _ (is_same ∙ ap ok equal), lasts)

module _ {B : Type 0} (r : Redis B) (codec : Codec B) where
  -- the user is that of a session under the token
  abbrev Authorized :
      Bool
      → (now username password : String) → Result (Option Content)
      → r.State
      → r.State × Result (Option String)
      → Type 0
  Authorized up now username password found s ended =
      (user : String)
      → ended.1 ≡ ok (some user)
      → (user ≡ username)
        × (ended.0 ≡ s)
        × ((content : Content) × (found ≡ ok (some content))
            × IsCurrent now username password content)

  by_token-Authorized :
      (up : Bool) (now username password : String) (content : Content) (test : Result Bool)
      (s : r.State)
      → token_ok now username password content ≡ test
      → Authorized up now username password
          (ok (some content))
          s
          (by_token r up username password content test s)
  unfolding by_token
  by_token-Authorized up now username password content (err e) s e' = λ user h. absurd (cc)
  by_token-Authorized up now username password content (ok false) s e' = λ user h. absurd (cc)
  by_token-Authorized up now username password content (ok true) s e' = λ user h.
      let same : user ≡ username = cc h in
      (same, refl, (content, refl, token_ok-IsCurrent now username password content e'))

  by_session-Authorized :
      (up : Bool) (now username password : String) (found : Result (Option Content)) (s : r.State)
      → Authorized up now username password found s (by_session r up now username password found s)
  unfolding by_session
  by_session-Authorized up now username password (err e) s = λ user h. absurd (cc)
  by_session-Authorized up now username password (ok none) s = λ user h. absurd (cc)
  by_session-Authorized up now username password (ok (some content)) s =
      by_token-Authorized up now username password content _ s refl

  -- A request is let in only as the user that it names, and only with a token under which redis has a
  -- session of that user and with that token, which has not expired; redis stays as it is then.
  pub basic-IsCurrent :
      (up : Bool) (now username password user : String) (s : r.State)
      → (basic r codec up now username password s).1 ≡ ok (some user)
      → (user ≡ username)
        × ((basic r codec up now username password s).0 ≡ s)
        × ((content : Content) × (get_session r codec up s (some username) password none
              ≡ ok (some content))
            × IsCurrent now username password content)
  unfolding basic
  basic-IsCurrent up now username password user s =
      by_session-Authorized up now username password _ s user
