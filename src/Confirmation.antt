-- ===== src/Confirmation.antt =====
-- apicrud/messaging/confirmation.py: class Confirmation. The proofs are in the modules below.
pub mod Token
pub mod Second
pub mod Sms
use apicrud.Prelude.{
  ℕ, ◌+◌, ◌-◌, ◌≤◌, Bool, true, false, not, Option, none, some, String, ◌⧺◌, List, [], ◌∷◌, ◌≡◌,
  if◌then◌else◌, ◌==◌, text_eq, number_eq, option_eq,
}
use apicrud.Python.Result.{Exn, Result, ok, err, ◌>>=◌}
use apicrud.Python.Text.{split}
use apicrud.Redis.{Redis}
use apicrud.Session.{Content, Codec, Config, Login, create, get_arg, delete_session}
use apicrud.Auth.Roles.{Fresh}

-- URLSafeTimedSerializer under one secret and salt: a token, by the second in which it is made, and
-- the payload of a token that is no older than `max_age` seconds
pub record Serializer : Type 0 where
  pub dumps : ℕ → String → String
  pub loads : (now max_age : ℕ) → String → Option String
  pub loads-dumps :
      (made age max_age : ℕ) (payload : String)
      → age ≤ max_age
      → loads (made + age) max_age (dumps made payload) ≡ some payload

-- a contact, with the name of its owner
pub record Contact : Type 0 where
  pub id : String
  pub info : String
  pub kind : String
  pub uid : String
  pub status : String
  pub owner_name : String

-- the two tables: the contacts by id, and the referrer of each person
pub record Directory : Type 0 where
  pub contact : String → Option Contact
  pub referrer : String → Option (Option String)

abbrev pub activated : Option Contact → Option Contact
activated none = none
activated (some c) = some (record c { status = "active" })

abbrev unreferred : Option (Option String) → Option (Option String)
unreferred none = none
unreferred (some referrer) = some none

-- contact.status = 'active', and the UPDATE of its person
unfoldable pub activate : String → String → Directory → Directory
activate id uid d = record {
  contact = λ j. if id == j then activated (d.contact j) else d.contact j;
  referrer = λ j. if uid == j then unreferred (d.referrer j) else d.referrer j;
}

-- one call of func_send
pub record Sending : Type 0 where
  pub to : String
  pub template : String
  pub token : String
  pub kind : String

-- '%s:%s:%s' % (contact.id, contact.info, nonce)
unfoldable pub payload_of : Contact → String → String
payload_of c nonce = c.id ⧺ (":" ⧺ (c.info ⧺ (":" ⧺ nonce)))

-- the nonce: '1' for SMS, otherwise the eight letters that are drawn
unfoldable pub nonce_of : Contact → String → String
nonce_of c letters = if c.kind == "sms" then "1" else letters

-- ttl or self.token_timeout
unfoldable pub ttl_of : Option ℕ → ℕ → ℕ
ttl_of none timeout = timeout
ttl_of (some ttl) timeout = if ttl == 0 then timeout else ttl

-- the session that holds a token until it is confirmed
unfoldable pub token_login : Contact → String → String → ℕ → Fresh → Login
token_login c nonce token ttl fresh = record {
  uid = some c.id;
  roles = [];
  key_id = none;
  nonce = some nonce;
  ttl = some ttl;
  extra = ("param", some token) ∷ [];
  random_token = fresh.token;
  exp = fresh.exp;
  iv = fresh.iv;
}

-- the session of a contact that has been confirmed
unfoldable pub confirmed_login : Contact → String → Bool → Fresh → Login
confirmed_login c info clear fresh = record {
  uid = some c.uid;
  roles = (if clear then "pending" else "person") ∷ [];
  key_id = none;
  nonce = none;
  ttl = none;
  extra =
      ("info", some info)
      ∷ ("type", some c.kind)
      ∷ ("contact_id", some c.id)
      ∷ ("name", some c.owner_name)
      ∷ [];
  random_token = fresh.token;
  exp = fresh.exp;
  iv = fresh.iv;
}

-- what `request` returns with status 200, and what it sends
pub record Requested : Type 0 where
  pub token : String
  pub uid : String
  pub sent : List Sending

-- what `confirm` returns: a status, or a session with status 200
pub data Confirmed : Type 0 where
  rejected : ℕ → Confirmed
  opened : Content → Confirmed

-- id, info, nonce = ….split(':')
unfoldable pub three_parts : List String → Option (String × String × String)
three_parts [] = none
three_parts (a ∷ []) = none
three_parts (a ∷ b ∷ []) = none
three_parts (a ∷ b ∷ c ∷ []) = some (a, b, c)
three_parts (a ∷ b ∷ c ∷ d ∷ rest) = none

unfoldable pub parts_of : Option String → Option (String × String × String)
parts_of none = none
parts_of (some payload) = three_parts (split ":" payload)

module _ {B : Type 0} (r : Redis B) (codec : Codec B) (sessions : Config) (serializer : Serializer)
    (token_timeout : ℕ) where
  -- request, for a contact: `up` says whether redis answers, `sends` whether there is a func_send,
  -- and `letters` are those that are drawn
  unfoldable pub request_contact :
      (up sends : Bool) (now : ℕ) (letters : String) (fresh : Fresh) (ttl : Option ℕ)
      (template : String)
      → Contact
      → r.State
      → r.State × Requested
  request_contact up sends now letters fresh ttl template c s =
      let nonce = nonce_of c letters in
      let token = serializer.dumps now (payload_of c nonce) in
      let (s', made) =
        create r codec sessions up (token_login c nonce token (ttl_of ttl token_timeout) fresh) s in
      (
        s',
        record {
          token = token;
          uid = c.uid;
          sent =
              if sends
              then record { to = c.id; template = template; token = token; kind = c.kind } ∷ []
              else [];
        },
      )

  abbrev requested : r.State × Requested → r.State × Result Requested
  requested (s, made) = (s, ok made)

  -- request: `one()` raises NoResultFound, so that there is no answer with status 404
  unfoldable pub request :
      (up sends : Bool) (now : ℕ) (letters : String) (fresh : Fresh) (ttl : Option ℕ)
      (template id : String)
      → Option Contact
      → r.State
      → r.State × Result Requested
  request up sends now letters fresh ttl template id none s = (s, err Exn.no_result_found)
  request up sends now letters fresh ttl template id (some c) s =
      requested (request_contact up sends now letters fresh ttl template c s)

  -- redis, the tables, and the answer
  abbrev pub Confirming : Type 0
  Confirming = r.State × Directory × Result Confirmed

  -- dict(g.session.create(…))
  unfoldable pub open_session : Directory → r.State × Option Content → Confirming
  open_session d (s, none) = (s, d, err Exn.type_error)
  open_session d (s, some content) = (s, d, ok (opened content))

  -- behind the test of the token, for what the query finds
  unfoldable pub confirm_contact :
      (up clear : Bool) (fresh : Fresh) (id info nonce : String)
      → Option Contact
      → Directory
      → r.State
      → Confirming
  confirm_contact up clear fresh id info nonce none d s = (s, d, ok (rejected 404))
  confirm_contact up clear fresh id info nonce (some c) d s = open_session (activate id c.uid d) (
      create r codec sessions up (confirmed_login (record c { id = id }) info clear fresh)
        (if clear then delete_session r up (some id) nonce none s else s))

  -- if g.session.get(id, nonce, arg='param') != token
  unfoldable pub confirm_token :
      (up clear : Bool) (fresh : Fresh) (token id info nonce : String)
      → Result (Option String)
      → Directory
      → r.State
      → Confirming
  confirm_token up clear fresh token id info nonce (err e) d s = (s, d, err e)
  confirm_token up clear fresh token id info nonce (ok param) d s =
      if param == some token
      then confirm_contact up clear fresh id info nonce (d.contact id) d s
      else (s, d, ok (rejected 403))

  unfoldable pub confirm_parts :
      (up clear : Bool) (fresh : Fresh) (token : String)
      → Option (String × String × String)
      → Directory
      → r.State
      → Confirming
  confirm_parts up clear fresh token none d s = (s, d, ok (rejected 403))
  confirm_parts up clear fresh token (some (id, info, nonce)) d s =
      confirm_token up clear fresh token id info nonce
        (get_arg r codec up s (some id) nonce "param" none) d s

  unfoldable pub confirm :
      (up clear : Bool) (now : ℕ) (fresh : Fresh) (token : String)
      → Directory
      → r.State
      → Confirming
  confirm up clear now fresh token d s =
      confirm_parts up clear fresh token (parts_of (serializer.loads now token_timeout token)) d s
