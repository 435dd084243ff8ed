-- ===== src/Session/Laws.antt =====
-- Sessions: what `get` finds after `create`, `update` and `delete`, and for how long.
use apicrud.Prelude.{
  ℕ, Bool, true, false, Option, none, some, String, ◌≡◌, ◌≢◌, refl, ◌∙◌, ap, sym, ltb,
  if◌then◌else◌, ◌==◌, text_eq, option_eq, eq_refl, eq_iff, option_beq_iff, Option-cases,
  Bool-cases, arith, inl, inr,
}
use apicrud.Python.Result.{Exn, Result, ok, err}
use apicrud.Python.Dict.{lookup, insert, lookup-insert, lookup-merge_absent}
use apicrud.Redis.{Redis, Value, sealed, get, lasts, get-tick_put, later-set_nx}
use apicrud.Session.{
  Content, Codec, Config, Login, session_key, token_of, content_of, or_default, create, decoded,
  read, checked, get_session, update, delete_session,
}

decoded-if :
    {B : Type 0} (codec : Codec B) (iv : String) (c : Content) (b : Bool)
    → decoded codec (if b then some (sealed (codec.seal iv c)) else none)
      ≡ (if b then some c else none)
unfolding decoded
decoded-if codec iv c true = codec.unseal-seal iv c
decoded-if codec iv c false = refl

checked-if :
    (token : String) (c : Content) (b : Bool)
    → lookup "jti" c ≡ some (some token)
    → checked token (if b then some c else none) ≡ ok (if b then some c else none)
unfolding checked
checked-if token c true jti = rw jti (rw (eq_refl token))
checked-if token c false jti = refl

kept_if :
    (jti : Option String) (token : String) (content : Content) {c : Content}
    → ◌≡◌ {A = Result (Option Content)}
        (ok (if jti == some token then some content else none))
        (ok (some c))
    → (content ≡ c) × (jti ≡ some token)
kept_if jti token content h = elim (Bool-cases (jti == some token)) [
  | inl same ↦ let h' = rw same at h in (cc h', (option_beq_iff jti (some token)).0 same)
  | inr other ↦ let h' = rw other at h in cc h'
]

checked_token :
    (token : String) (found : Option Content) {c : Content}
    → checked token found ≡ ok (some c)
    → lookup "jti" c ≡ some (some token)
unfolding checked
checked_token token none h = cc
checked_token token (some content) h = elim (Option-cases (lookup "jti" content)) [
  | inl absent ↦ let h' = rw absent at h in cc h'
  | inr (jti, e) ↦
      let (same, right) = kept_if jti token content (rw e at h) in
      sym (ap (λ (d : Content). lookup "jti" d) same) ∙ e ∙ ap some right
]

module _ {B : Type 0} (r : Redis B) (codec : Codec B) where
  read-put :
      (s : r.State) (key iv : String) (c : Content) (ex : Option ℕ) (n : ℕ)
      → read r codec (r.tick (r.put s key (sealed (codec.seal iv c)) ex) n) key
        ≡ (if lasts ex n then some c else none)
  unfolding read
  read-put s key iv c ex n =
      ap (decoded codec)
        (get-tick_put r s key (sealed (codec.seal iv c)) ex n key ∙ rw (eq_refl key))
      ∙ decoded-if codec iv c (lasts ex n)

  -- `get` with the right token, after a write of the session and `n` seconds.
  pub get-put :
      (s : r.State) (uid : Option String) (token iv : String) (key_id : Option String) (c : Content)
      (ex : Option ℕ) (n : ℕ)
      → lookup "jti" c ≡ some (some token)
      → get_session r codec true
          (r.tick (r.put s (session_key uid token key_id) (sealed (codec.seal iv c)) ex) n)
          uid
          token
          key_id
        ≡ ok (if lasts ex n then some c else none)
  unfolding get_session
  get-put s uid token iv key_id c ex n jti =
      ap (checked token) (read-put s (session_key uid token key_id) iv c ex n)
      ∙ checked-if token c (lasts ex n) jti

  -- Whatever stands in redis, `get` returns a session only for the token that it was created with.
  pub get_session-token :
      (up : Bool) (s : r.State) (uid : Option String) (token : String) (key_id : Option String)
      {c : Content}
      → get_session r codec up s uid token key_id ≡ ok (some c)
      → lookup "jti" c ≡ some (some token)
  unfolding get_session
  get_session-token false s uid token key_id h = cc
  get_session-token true s uid token key_id h = checked_token token _ h

  pub create_free :
      (config : Config) (l : Login) (s : r.State)
      → get r s (session_key l.uid (token_of l) l.key_id) ≡ none
      → create r codec config true l s ≡ (
        r.put s
            (session_key l.uid (token_of l) l.key_id)
            (sealed (codec.seal l.iv (content_of config l)))
            (some (or_default l.ttl config.ttl)),
        some (content_of config l),
      )
  unfolding create
  create_free config l s free_key = ground arith

-- A session that is created leaves the other keys as they are.
pub later-create :
    {B : Type 0} (r : Redis B) (codec : Codec B) (config : Config) (l : Login) (s : r.State) (n : ℕ)
    (key : String)
    → (session_key l.uid (token_of l) l.key_id == key) ≡ false
    → r.get_later (create r codec config true l s).0 n key ≡ r.get_later s n key
unfolding create
later-create r codec config l s n key other = later-set_nx r s _ _ _ n key other

content-jti :
    (config : Config) (l : Login)
    → lookup "jti" l.extra ≡ none
    → lookup "jti" (content_of config l) ≡ some (some (token_of l))
unfolding content_of
content-jti config l h = lookup-merge_absent "jti" _ l.extra h ∙ unfold lookup in refl

module _ {B : Type 0} (r : Redis B) (codec : Codec B) (config : Config) (l : Login)
    (s : r.State) where
  -- A session that is created on a free key is returned, and `get` finds it unchanged for exactly
  -- as many seconds as its ttl, unless another command comes in.
  pub get-create :
      (n : ℕ)
      → get r s (session_key l.uid (token_of l) l.key_id) ≡ none
      → lookup "jti" l.extra ≡ none
      → ((create r codec config true l s).1 ≡ some (content_of config l))
        × (get_session r codec true
              (r.tick (create r codec config true l s).0 n)
              l.uid
              (token_of l)
              l.key_id
            ≡ ok (if ltb n (or_default l.ttl config.ttl) then some (content_of config l) else none))
  get-create n free_key jti = rw (create_free r codec config l s free_key) (
    refl,
    get-put r codec s l.uid (token_of l) l.iv l.key_id (content_of config l)
        (some (or_default l.ttl config.ttl)) n (content-jti config l jti),
  )

  -- On a key that is taken nothing is written and no session is returned: the session of another
  -- token with the same ending stays.
  pub create_taken :
      (up : Bool) (v : Value B)
      → get r s (session_key l.uid (token_of l) l.key_id) ≡ some v
      → create r codec config up l s ≡ (s, none)
  unfolding create
  create_taken up v taken = ground arith

module _ {B : Type 0} (r : Redis B) (codec : Codec B) (config : Config) (s : r.State)
    (uid : Option String) (token iv arg : String) (value : Option String) where
  update_found :
      {c : Content}
      → get_session r codec true s uid token none ≡ ok (some c)
      → update r codec config true iv uid token arg value none s ≡ (
        r.put s
            (session_key uid token none)
            (sealed (codec.seal iv (insert arg value c)))
            (some config.ttl),
        ok tt,
      )
  unfolding update
  update_found found = ground arith

  -- After an update the session has the new value, and it is there for the class's ttl, whatever
  -- its own was.
  pub get-update :
      (n : ℕ) {c : Content}
      → get_session r codec true s uid token none ≡ ok (some c)
      → arg ≢ "jti"
      → get_session r codec true
          (r.tick (update r codec config true iv uid token arg value none s).0 n)
          uid
          token
          none
        ≡ ok (if ltb n config.ttl then some (insert arg value c) else none)
  get-update n {c} found other =
      ap
        (λ (t : r.State × Result (Unit {0})).
          get_session r codec true (r.tick t.0 n) uid token none)
        (update_found found)
      ∙ get-put r codec s uid token iv none (insert arg value c) (some config.ttl) n (
          ground (
            arith,
            lookup-insert arg "jti" value c,
            eq_iff arg "jti",
            get_session-token r codec true s uid token none found,
          ))

  -- `update` looks for the session under the uid, not under `key_id`: where there is none, it raises
  -- and writes nothing, even if the session of `key_id` is there.
  pub update_key_id_raises :
      (up : Bool) (key_id : Option String)
      → get r s (session_key uid token none) ≡ none
      → update r codec config up iv uid token arg value key_id s ≡ (s, err Exn.type_error)
  unfolding update get_session read decoded checked
  update_key_id_raises up key_id absent = ground arith

  -- After a delete no token with that ending finds a session.
  pub get-delete :
      (other_token : String) (key_id : Option String)
      → session_key uid other_token key_id ≡ session_key uid token key_id
      → get_session r codec true (delete_session r true uid token key_id s) uid other_token key_id
        ≡ ok none
  unfolding get_session delete_session read decoded checked
  get-delete other_token key_id same = rw (same, r.later-delete, eq_refl)
