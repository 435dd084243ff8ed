-- ===== src/Access/ApiKey/Verified.antt =====
-- apicrud/access.py, AccessControl.apikey_verify: whose key is accepted.
use apicrud.Prelude.{
  ℕ, Bool, true, false, not, ◌&&◌, Option, none, some, String, List, [], ◌∷◌, ◌≡◌, inl, inr, refl,
  text_eq, Bool-cases, Any, Any-map, if_cases,
}
use apicrud.Access.ApiKey.{
  KeyRecord, is_expired, is_match, matching, owner_of, writes, apikey_verify,
}

abbrev pub IsLive : ℕ → String × List String → KeyRecord → Type 0
IsLive now owner key = (is_expired now key.expires ≡ false) × (owner ≡ (key.uid, key.scopes))

-- the record of an active key with that id and that hash, which has not expired
abbrev pub IsValid : ℕ → String → String → String × List String → KeyRecord → Type 0
IsValid now key_id hash owner key = (is_match key_id hash key ≡ true) × IsLive now owner key

Any-matching :
    (key_id hash : String) (keys : List KeyRecord) (P : KeyRecord → Type 0)
    → Any P (matching key_id hash keys)
    → Any (λ key. (is_match key_id hash key ≡ true) × P key) keys
unfolding matching
Any-matching key_id hash [] P = λ h. h
Any-matching key_id hash (key ∷ keys) P = elim (Bool-cases (is_match key_id hash key)) [
  | inl same ↦ rw same (λ h. elim h [
    | inl here ↦ inl (refl, here)
    | inr later ↦ inr (Any-matching key_id hash keys P later)
  ])
  | inr other ↦ rw other (λ h. inr (Any-matching key_id hash keys P h))
]

Any-owner_of :
    (now : ℕ) (found : List KeyRecord) (owner : String × List String)
    → owner_of now found ≡ some owner
    → Any (IsLive now owner) found
unfolding owner_of
Any-owner_of now [] owner = λ h. absurd (cc)
Any-owner_of now (key ∷ []) owner = elim (Bool-cases (is_expired now key.expires)) [
  | inl late ↦ rw late (λ h. absurd (cc))
  | inr live ↦ rw live (λ h. inl (refl, cc))
]
Any-owner_of now (key ∷ other ∷ keys) owner = λ h. absurd (cc)

-- A key is accepted as a user's only if the table has an active record of that user with the key's id
-- and the hash of the secret, and the record has not expired.
pub apikey_verify-IsValid :
    (sha256 : String → String) (commits : Bool) (now : ℕ) (key_id secret : String)
    (keys : List KeyRecord) (owner : String × List String)
    → (apikey_verify sha256 commits now key_id secret keys).1 ≡ some owner
    → Any (IsValid now key_id (sha256 secret) owner) keys
unfolding apikey_verify
apikey_verify-IsValid sha256 commits now key_id secret keys owner =
    if_cases
      (λ (found : Option (String × List String)).
        found ≡ some owner → Any (IsValid now key_id (sha256 secret) owner) keys)
      (writes now (matching key_id (sha256 secret) keys) && not commits) none
      (owner_of now (matching key_id (sha256 secret) keys)) (λ _ h. absurd (cc))
      (λ _ h.
        Any-map (λ key. (is_match key_id (sha256 secret) key ≡ true) × IsLive now owner key)
          (IsValid now key_id (sha256 secret) owner) keys (λ key valid. valid)
          (Any-matching key_id (sha256 secret) keys (IsLive now owner)
            (Any-owner_of now _ owner h)))
