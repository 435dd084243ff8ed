-- ===== src/Session.antt =====
-- apicrud/session_manager.py: class SessionManager. The proofs are in the modules below.
pub mod Laws
pub mod Key
use apicrud.Prelude.{
  ℕ, zero, suc, ◌+◌, Bool, true, false, not, Option, none, some, String, ◌⧺◌, List, [], ◌∷◌, ◌≡◌,
  leb, if◌then◌else◌, ◌==◌, text_eq, option_eq,
}
use apicrud.Python.Result.{Exn, Result, ok, err, ◌>>=◌, or_raise}
use apicrud.Python.Text.{truthy, join, last_chars, show}
use apicrud.Python.Dict.{Dict, lookup, insert, merge}
use apicrud.Redis.{Redis, Value, text, sealed, int, real, get, set_nx}

-- what json.dumps writes: the values are strings or null
abbrev pub Content : Type 0
Content = Dict (Option String)

-- json.dumps and AES encryption, under one initialization vector, and their inverse; `none` is an
-- exception of the decryption or of json.loads
pub record Codec (B : Type 0) : Type 0 where
  pub seal : String → Content → B
  pub unseal : B → Option Content
  pub unseal-seal : (iv : String) (c : Content) → unseal (seal iv c) ≡ some c

-- the settings that the class reads
pub record Config : Type 0 where
  pub jwt_issuer : String
  pub ttl : ℕ

-- 'ses:%s:%s' % (key_id or uid, token[-3:])
unfoldable pub session_key : Option String → String → Option String → String
session_key uid token key_id =
    "ses:" ⧺ (show (if truthy key_id then key_id else uid) ⧺ (":" ⧺ last_chars 3 token))

-- what the caller and the environment give to `create`: the random token, the time of expiry and
-- the initialization vector are values that the call reads
pub record Login : Type 0 where
  pub uid : Option String
  pub roles : List String
  pub key_id : Option String
  pub nonce : Option String
  pub ttl : Option ℕ
  pub extra : Content
  pub random_token : String
  pub exp : String
  pub iv : String

abbrev pub or_default {ℓ} : {A : Type ℓ} → Option A → A → A
or_default none d = d
or_default (some a) _ = a

unfoldable pub token_of : Login → String
token_of l = or_default l.nonce l.random_token

unfoldable pub content_of : Config → Login → Content
content_of config l =
    merge
      (("auth", some (join ":" l.roles))
        ∷ ("exp", some l.exp)
        ∷ ("iss", some config.jwt_issuer)
        ∷ ("jti", some (token_of l))
        ∷ ("sub", l.uid)
        ∷ [])
      l.extra

-- the test of the token, behind the `try` of `get`
unfoldable pub checked : String → Option Content → Result (Option Content)
checked token none = ok none
checked token (some content) = do
  jti ← or_raise (lookup "jti" content) Exn.key_error
  ok (if jti == some token then some content else none)

-- json.loads(decrypt(value)), with every exception caught
unfoldable pub decoded : {B : Type 0} → Codec B → Option (Value B) → Option Content
decoded codec none = none
decoded codec (some (text t)) = none
decoded codec (some (sealed b)) = codec.unseal b
decoded codec (some (int z)) = none
decoded codec (some (real x)) = none

module _ {B : Type 0} (r : Redis B) (codec : Codec B) where
  unfoldable pub read : r.State → String → Option Content
  read s key = decoded codec (get r s key)

  -- `up` says whether redis answers: a ConnectionError is caught
  unfoldable pub get_session :
      Bool → r.State → Option String → String → Option String → Result (Option Content)
  get_session up s uid token key_id =
      if up then checked token (read s (session_key uid token key_id)) else ok none

  -- `get` with `arg`: one value, or None
  unfoldable pub get_arg :
      Bool → r.State → Option String → String → String → Option String → Result (Option String)
  get_arg up s uid token arg key_id = do
    found ← get_session up s uid token key_id
    ok (elim found [
      | none ↦ none
      | some content ↦ elim (lookup arg content) [ none ↦ none | some v ↦ v ]
    ])

module _ {B : Type 0} (r : Redis B) (codec : Codec B) (config : Config) where
  unfoldable pub create : Bool → Login → r.State → r.State × Option Content
  create up l s =
      let content = content_of config l in
      let (s', stored) =
        set_nx r s (session_key l.uid (token_of l) l.key_id) (sealed (codec.seal l.iv content))
          (some (or_default l.ttl config.ttl)) in
      if up then (s', (if stored then some content else none)) else (s, none)

  -- a TypeError where `get` finds no session
  unfoldable pub update :
      Bool
      → String
      → Option String
      → String
      → String
      → Option String
      → Option String
      → r.State
      → r.State × Result (Unit {0})
  update up iv uid token arg value key_id s = elim (get_session r codec up s uid token none) [
    | err e ↦ (s, err e)
    | ok found ↦ elim found [
      | none ↦ (s, err Exn.type_error)
      | some content ↦ (
        r.put s (session_key uid token key_id) (sealed (codec.seal iv (insert arg value content)))
            (some config.ttl),
        ok tt,
      )
    ]
  ]

module _ {B : Type 0} (r : Redis B) where
  unfoldable pub delete_session : Bool → Option String → String → Option String → r.State → r.State
  delete_session up uid token key_id s = if up then r.delete s (session_key uid token key_id) else s
