-- ===== src/Confirmation/Token.antt =====
-- apicrud/messaging/confirmation.py: what becomes of a token.
use Prim.Native.String.{String}
use apicrud.Prelude.{
  ℕ, ◌+◌, ◌≤◌, ◌<◌, Bool, true, false, Option, none, some, ◌⧺◌, ◌≡◌, ◌⊎◌, inl, inr, refl, ap, ◌∙◌,
  if◌then◌else◌, if_cases, ◌==◌, text_eq, number_eq, option_eq, eq_refl, option_beq_iff, lt→ltb,
}
use apicrud.Python.Result.{Result, ok, err}
use apicrud.Python.Text.{free, split-append_left, split-free}
use apicrud.Python.Dict.{lookup, insert, merge}
use apicrud.Redis.{Redis, Value, get}
use apicrud.Session.{
  Content, Codec, Config, get_arg, get_session, delete_session, session_key, token_of, content_of,
}
use apicrud.Session.Key.{colon_append}
use apicrud.Session.Laws.{get-create, create_free}
use apicrud.Auth.Roles.{Fresh}
use apicrud.Confirmation.{
  Serializer, Contact, Directory, activate, payload_of, nonce_of, ttl_of, token_login,
  confirmed_login, Confirmed, opened, three_parts, parts_of, request_contact, open_session,
  confirm_contact, confirm_token, confirm_parts, confirm,
}

-- A token's payload comes apart where its parts have no colon.
pub parts_of-payload_of :
    (c : Contact) (nonce : String)
    → free ":" c.id ≡ true
    → free ":" c.info ≡ true
    → free ":" nonce ≡ true
    → parts_of (some (payload_of c nonce)) ≡ some (c.id, c.info, nonce)
unfolding parts_of payload_of three_parts
parts_of-payload_of c nonce hid hinfo hnonce = rw (colon_append (c.info ⧺ (":" ⧺ nonce))) (
    rw (split-append_left ":" c.id _ hid) (
      rw (colon_append nonce)
        (rw (split-append_left ":" c.info nonce hinfo) (rw (split-free ":" nonce hnonce)))))

module _ {B : Type 0} (r : Redis B) (codec : Codec B) (sessions : Config) (serializer : Serializer)
    (token_timeout : ℕ) where
  -- the `param` of a session that has just been made
  token_param :
      (c : Contact) (nonce token : String) (ttl : ℕ) (fresh : Fresh)
      → lookup "param" (content_of sessions (token_login c nonce token ttl fresh))
        ≡ some (some token)
  unfolding content_of token_login merge insert lookup
  token_param c nonce token ttl fresh = refl

  get_arg_found :
      (s : r.State) (uid : Option String) (token arg : String) (content : Content)
      (value : Option String)
      → get_session r codec true s uid token none ≡ ok (some content)
      → lookup arg content ≡ some value
      → get_arg r codec true s uid token arg none ≡ ok value
  unfolding get_arg
  get_arg_found s uid token arg content value found has = rw found (rw has)

  -- the token in the session of a request, `age` seconds later
  pub requested_param :
      (sends : Bool) (now age : ℕ) (letters : String) (fresh : Fresh) (ttl : Option ℕ)
      (template : String) (c : Contact) (s : r.State)
      → get r s (session_key (some c.id) (nonce_of c letters) none) ≡ none
      → age < ttl_of ttl token_timeout
      → get_arg r codec true
          (r.tick
            (request_contact r codec sessions serializer token_timeout true sends now letters fresh
              ttl template c s).0
            age)
          (some c.id)
          (nonce_of c letters)
          "param"
          none
        ≡ ok (some (serializer.dumps now (payload_of c (nonce_of c letters))))
  unfolding request_contact token_login token_of
  requested_param sends now age letters fresh ttl template c s vacant young =
      let l =
        token_login c (nonce_of c letters)
          (serializer.dumps now (payload_of c (nonce_of c letters))) (ttl_of ttl token_timeout)
          fresh in
      get_arg_found _ (some c.id) (nonce_of c letters) "param" (content_of sessions l) _
        ((get-create r codec sessions l s age vacant (unfold lookup in refl)).1
          ∙ rw (lt→ltb age (ttl_of ttl token_timeout) young))
        (token_param c _ _ _ fresh)

  -- what `confirm` does with a token whose session is found
  pub confirm_found :
      (clear : Bool) (now : ℕ) (fresh : Fresh) (token id info nonce : String) (c : Contact)
      (d : Directory) (s : r.State)
      → parts_of (serializer.loads now token_timeout token) ≡ some (id, info, nonce)
      → get_arg r codec true s (some id) nonce "param" none ≡ ok (some token)
      → d.contact id ≡ some c
      → confirm r codec sessions serializer token_timeout true clear now fresh token d s
        ≡ confirm_contact r codec sessions serializer token_timeout true clear fresh id info nonce
            (some c)
            d
            s
  unfolding confirm confirm_parts confirm_token
  confirm_found clear now fresh token id info nonce c d s parts param known =
      rw parts (rw param (rw (eq_refl token) (rw known)))

  deleted_free :
      (clear : Bool) (uid : Option String) (nonce key : String) (s : r.State)
      → get r s key ≡ none
      → get r (if clear then delete_session r true uid nonce none s else s) key ≡ none
  unfolding delete_session
  deleted_free false uid nonce key s vacant = vacant
  deleted_free true uid nonce key s vacant =
      r.later-delete s (session_key uid nonce none) 0 key
      ∙ if_cases (λ (v : Option (Value B)). v ≡ none) (session_key uid nonce none == key) none _
          (λ same. refl) (λ other. vacant)

  confirm_contact_opens :
      (clear : Bool) (fresh : Fresh) (id info nonce : String) (c : Contact) (d : Directory)
      (s : r.State)
      → get r s (session_key (some c.uid) fresh.token none) ≡ none
      → let ended =
          confirm_contact r codec sessions serializer token_timeout true clear fresh id info nonce
            (some c)
            d
            s in
        (ended.1 ≡ activate id c.uid d)
        × (ended.2
            ≡ ok (
                opened
                  (content_of sessions (confirmed_login (record c { id = id }) info clear fresh))))
  unfolding confirm_contact open_session confirmed_login token_of
  confirm_contact_opens clear fresh id info nonce c d s vacant =
      rw
        (create_free r codec sessions (confirmed_login (record c { id = id }) info clear fresh) _
          (deleted_free clear (some id) nonce (session_key (some c.uid) fresh.token none) s vacant))
        (refl, refl)

  confirm_opens :
      (clear : Bool) (now : ℕ) (fresh : Fresh) (token id info nonce : String) (c : Contact)
      (d : Directory) (s : r.State)
      → parts_of (serializer.loads now token_timeout token) ≡ some (id, info, nonce)
      → get_arg r codec true s (some id) nonce "param" none ≡ ok (some token)
      → d.contact id ≡ some c
      → get r s (session_key (some c.uid) fresh.token none) ≡ none
      → let ended =
          confirm r codec sessions serializer token_timeout true clear now fresh token d s in
        (ended.1 ≡ activate id c.uid d)
        × (ended.2
            ≡ ok (
                opened
                  (content_of sessions (confirmed_login (record c { id = id }) info clear fresh))))
  confirm_opens clear now fresh token id info nonce c d s parts param known vacant =
      rw (confirm_found clear now fresh token id info nonce c d s parts param known)
        (confirm_contact_opens clear fresh id info nonce c d s vacant)

  -- A token that `request` has made for a contact, without a colon in its id and its info, is confirmed
  -- while the session and the token last, if the keys of both sessions are free when they are made:
  -- the contact is active then, the referrer of its person is gone, and a session is opened.
  pub confirm-request :
      (sends clear : Bool) (now age : ℕ) (letters : String) (fresh fresh' : Fresh) (ttl : Option ℕ)
      (template : String) (c : Contact) (d : Directory) (s : r.State)
      → get r s (session_key (some c.id) (nonce_of c letters) none) ≡ none
      → free ":" c.id ≡ true
      → free ":" c.info ≡ true
      → free ":" (nonce_of c letters) ≡ true
      → age < ttl_of ttl token_timeout
      → age ≤ token_timeout
      → d.contact c.id ≡ some c
      → let made =
          request_contact r codec sessions serializer token_timeout true sends now letters fresh ttl
            template c s in
        get r (r.tick made.0 age) (session_key (some c.uid) fresh'.token none) ≡ none
        → let ended =
            confirm r codec sessions serializer token_timeout true clear
              (now + age)
              fresh'
              made.1.token
              d
              (r.tick made.0 age) in
          (ended.1 ≡ activate c.id c.uid d)
          × (ended.2 ≡ ok (opened (content_of sessions (confirmed_login c c.info clear fresh'))))
  unfolding request_contact
  confirm-request sends clear now age letters fresh fresh' ttl template c d s vacant hid hinfo
        hnonce young fit known later =
      confirm_opens clear (now + age) fresh'
        (serializer.dumps now (payload_of c (nonce_of c letters))) c.id c.info (nonce_of c letters)
        c d
        (r.tick
          (request_contact r codec sessions serializer token_timeout true sends now letters fresh
            ttl template c s).0
          age)
        (ap parts_of (serializer.loads-dumps now age token_timeout _ fit)
          ∙ parts_of-payload_of c (nonce_of c letters) hid hinfo hnonce)
        (requested_param sends now age letters fresh ttl template c s vacant young) known later

  -- the tables are as they were, or the token has made a contact active
  abbrev pub ByToken : String → ℕ → Directory → r.State → Directory → Type 0
  ByToken token now d s d' =
      (d' ≡ d)
      ⊎ ((id : String) × (info : String) × (nonce : String) × (c : Contact) × (parts_of
              (serializer.loads now token_timeout token)
            ≡ some (id, info, nonce))
          × (get_arg r codec true s (some id) nonce "param" none ≡ ok (some token))
          × (d.contact id ≡ some c)
          × (d' ≡ activate id c.uid d))

  open_session_tables :
      (d : Directory) (made : r.State × Option Content)
      → (open_session r codec sessions serializer token_timeout d made).1 ≡ d
  unfolding open_session
  open_session_tables d (s, none) = refl
  open_session_tables d (s, some content) = refl

  contact-ByToken :
      (clear : Bool) (now : ℕ) (fresh : Fresh) (token id info nonce : String) (d : Directory)
      (s : r.State) (found : Option Contact)
      → parts_of (serializer.loads now token_timeout token) ≡ some (id, info, nonce)
      → get_arg r codec true s (some id) nonce "param" none ≡ ok (some token)
      → d.contact id ≡ found
      → ByToken token now d s
          (confirm_contact r codec sessions serializer token_timeout true clear fresh id info nonce
            found d s).1
  unfolding confirm_contact
  contact-ByToken clear now fresh token id info nonce d s none parts param known = inl refl
  contact-ByToken clear now fresh token id info nonce d s (some c) parts param known =
      inr (id, info, nonce, c, parts, param, known, open_session_tables _ _)

  token-ByToken :
      (clear : Bool) (now : ℕ) (fresh : Fresh) (token id info nonce : String) (d : Directory)
      (s : r.State) (param : Result (Option String))
      → parts_of (serializer.loads now token_timeout token) ≡ some (id, info, nonce)
      → get_arg r codec true s (some id) nonce "param" none ≡ param
      → ByToken token now d s
          (confirm_token r codec sessions serializer token_timeout true clear fresh token id info
            nonce param d s).1
  unfolding confirm_token
  token-ByToken clear now fresh token id info nonce d s (err e) parts held = inl refl
  token-ByToken clear now fresh token id info nonce d s (ok param) parts held =
      if_cases (λ (ended : r.State × Directory × Result Confirmed). ByToken token now d s ended.1)
        (param == some token) _ _
        (λ same.
          contact-ByToken clear now fresh token id info nonce d s (d.contact id) parts
            (held ∙ ap ok ((option_beq_iff param (some token)).0 same)) refl)
        (λ other. inl refl)

  parts-ByToken :
      (clear : Bool) (now : ℕ) (fresh : Fresh) (token : String) (d : Directory) (s : r.State)
      (parts : Option (String × String × String))
      → parts_of (serializer.loads now token_timeout token) ≡ parts
      → ByToken token now d s
          (confirm_parts r codec sessions serializer token_timeout true clear fresh token parts d
            s).1
  unfolding confirm_parts
  parts-ByToken clear now fresh token d s none e = inl refl
  parts-ByToken clear now fresh token d s (some (id, info, nonce)) e =
      token-ByToken clear now fresh token id info nonce d s _ e refl

  -- A confirmation changes the tables only if the token's payload names a contact, and is the very token
  -- that the session of that contact holds: that contact becomes active, and the referrer of its person
  -- is gone.
  pub confirm-ByToken :
      (clear : Bool) (now : ℕ) (fresh : Fresh) (token : String) (d : Directory) (s : r.State)
      → ByToken token now d s
          (confirm r codec sessions serializer token_timeout true clear now fresh token d s).1
  unfolding confirm
  confirm-ByToken clear now fresh token d s = parts-ByToken clear now fresh token d s _ refl
