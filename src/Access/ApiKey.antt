-- ===== src/Access/ApiKey.antt =====
-- apicrud/access.py: AccessControl.apikey_create, apikey_verify and apikey_hash.
pub mod Verified
use apicrud.Prelude.{
  ℕ, ◌+◌, ◌*◌, Bool, true, false, not, ◌&&◌, ◌||◌, Option, none, some, String, List, [], ◌∷◌, ltb,
  if◌then◌else◌, ◌==◌, text_eq,
}
use apicrud.Python.Text.{last_chars}

-- a record of the API keys' table; a time is a number of seconds
pub record KeyRecord : Type 0 where
  pub uid : String
  pub prefix : String
  pub hashvalue : String
  pub status : String
  pub scopes : List String
  pub last_used : Option ℕ
  pub expires : Option ℕ

-- the key id, the secret and the hash, from the two ids that are drawn; `sha256` is the base-64 text
-- of the digest
unfoldable pub apikey_create :
    (sha256 : String → String) (long_id short_id : String) → String × String × String
apikey_create sha256 long_id short_id =
    let secret = last_chars 32 long_id in (short_id, secret, sha256 secret)

-- record.expires and record.expires < utcnow()
unfoldable pub is_expired : ℕ → Option ℕ → Bool
is_expired now none = false
is_expired now (some expires) = ltb expires now

-- not record.last_used or (… + timedelta(hours=6) < utcnow() and (not record.expires or …))
unfoldable pub is_marked : ℕ → Option ℕ → Option ℕ → Bool
is_marked now none expires = true
is_marked now (some last_used) none = ltb (last_used + 6 * 3600) now
is_marked now (some last_used) (some expires) = ltb (last_used + 6 * 3600) now && ltb expires now

unfoldable pub is_match : String → String → KeyRecord → Bool
is_match key_id hash record' =
    record'.prefix == key_id && record'.hashvalue == hash && record'.status == "active"

-- the records that the query finds
unfoldable pub matching : String → String → List KeyRecord → List KeyRecord
matching key_id hash [] = []
matching key_id hash (key ∷ keys) =
    let rest = matching key_id hash keys in if is_match key_id hash key then key ∷ rest else rest

unfoldable pub mark_used : ℕ → String → String → List KeyRecord → List KeyRecord
mark_used now key_id hash [] = []
mark_used now key_id hash (key ∷ keys) =
    let rest = mark_used now key_id hash keys in
    (if is_match key_id hash key && is_marked now key.last_used key.expires
      then record key { last_used = some now }
      else key)
    ∷ rest

-- what `one()` gives, and the uid and the scopes; an exception of the database gives None as well
unfoldable pub owner_of : ℕ → List KeyRecord → Option (String × List String)
owner_of now [] = none
owner_of now (key ∷ []) = if is_expired now key.expires then none else some (key.uid, key.scopes)
owner_of now (key ∷ other ∷ keys) = none

-- the time of use is written where one record is found; `commits` says whether the database takes it
unfoldable pub used_keys :
    Bool → ℕ → String → String → List KeyRecord → List KeyRecord → List KeyRecord
used_keys commits now key_id hash (key ∷ []) keys =
    if commits then mark_used now key_id hash keys else keys
used_keys commits now key_id hash [] keys = keys
used_keys commits now key_id hash (key ∷ other ∷ found) keys = keys

abbrev pub writes : ℕ → List KeyRecord → Bool
writes now [] = false
writes now (key ∷ keys) = is_marked now key.last_used key.expires

unfoldable pub apikey_verify :
    (sha256 : String → String)
    → (commits : Bool) → ℕ
    → String
    → String
    → List KeyRecord
    → List KeyRecord × Option (String × List String)
apikey_verify sha256 commits now key_id secret keys =
    let found = matching key_id (sha256 secret) keys in
    (
      used_keys commits now key_id (sha256 secret) found keys,
      if writes now found && not commits then none else owner_of now found,
    )
