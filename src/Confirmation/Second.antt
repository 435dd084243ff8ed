-- ===== src/Confirmation/Second.antt =====
-- apicrud/messaging/confirmation.py: a second request for a contact whose session is held already.
use Prim.Native.String.{String}
use apicrud.Prelude.{
  ltb, ◌⊎◌, ℕ, ◌+◌, ◌≤◌, ◌<◌, Bool, true, false, Option, none, some, ◌≡◌, ◌≢◌, inl, inr, refl, sym,
  ap, ◌∙◌, arith, ◌==◌, text_eq, option_eq, eq_refl, option_beq_iff, Bool-cases, lt→ltb,
}
use apicrud.Python.Result.{Result, ok}
use apicrud.Python.Text.{free}
use apicrud.Redis.{Redis, Value, get, sealed, get-tick_put}
use apicrud.Session.{
  Codec, Config, get_arg, get_session, session_key, token_of, content_of, read, decoded, checked,
}
use apicrud.Session.Laws.{create_free, create_taken}
use apicrud.Auth.Roles.{Fresh}
use apicrud.Confirmation.{
  Serializer, Contact, Directory, payload_of, nonce_of, ttl_of, token_login, Requested, Confirmed,
  rejected, parts_of, request_contact, confirm_token, confirm_parts, confirm,
}
use apicrud.Confirmation.Token.{requested_param, parts_of-payload_of}

some_injective : {a b : String} → some a ≡ some b → a ≡ b
some_injective e = cc e

module _ {B : Type 0} (r : Redis B) (codec : Codec B) (sessions : Config) (serializer : Serializer)
    (token_timeout : ℕ) where
  -- a token that is not the one in the session
  pub confirm_other :
      (clear : Bool) (now : ℕ) (fresh : Fresh) (token id info nonce : String)
      (param : Option String) (d : Directory) (s : r.State)
      → parts_of (serializer.loads now token_timeout token) ≡ some (id, info, nonce)
      → get_arg r codec true s (some id) nonce "param" none ≡ ok param
      → (param == some token) ≡ false
      → confirm r codec sessions serializer token_timeout true clear now fresh token d s
        ≡ (s, d, ok (rejected 403))
  unfolding confirm confirm_parts confirm_token
  confirm_other clear now fresh token id info nonce param d s parts held other =
      rw parts (rw held (rw other))

  -- no session, no value
  pub get_arg_absent :
      (s : r.State) (uid : Option String) (nonce arg : String)
      → get r s (session_key uid nonce none) ≡ none
      → get_arg r codec true s uid nonce arg none ≡ ok none
  unfolding get_arg get_session read decoded checked
  get_arg_absent s uid nonce arg absent = rw absent

  get_arg_same :
      (s t : r.State) (uid : Option String) (nonce arg : String)
      → get r s (session_key uid nonce none) ≡ get r t (session_key uid nonce none)
      → get_arg r codec true s uid nonce arg none ≡ get_arg r codec true t uid nonce arg none
  unfolding get_arg get_session read
  get_arg_same s t uid nonce arg same = rw same

  tick_twice :
      (s : r.State) (n m : ℕ) (key : String)
      → get r (r.tick (r.tick s n) m) key ≡ get r (r.tick s (n + m)) key
  tick_twice s n m key =
      let sum : n + (m + 0) ≡ n + m + 0 = omega arith in
      r.later-tick (r.tick s n) m 0 key
      ∙ r.later-tick s n (m + 0) key
      ∙ ap (λ (k : ℕ). r.get_later s k key) sum
      ∙ sym (r.later-tick s (n + m) 0 key)

  module _ (sends : Bool) (now n : ℕ) (letters : String) (fresh fresh' : Fresh)
      (ttl ttl' : Option ℕ) (template : String) (c : Contact) (s : r.State)
      (vacant : get r s (session_key (some c.id) (nonce_of c letters) none) ≡ none) where
    abbrev pub first : r.State × Requested
    first =
        request_contact r codec sessions serializer token_timeout true sends now letters fresh ttl
          template c s

    abbrev pub second : r.State × Requested
    second =
        request_contact r codec sessions serializer token_timeout true sends (now + n) letters
          fresh' ttl' template c (r.tick first.0 n)

    first_stays :
        n < ttl_of ttl token_timeout
        → (v : Value B) × (get r
              (r.tick first.0 n)
              (session_key (some c.id) (nonce_of c letters) none)
            ≡ some v)
    unfolding request_contact token_login token_of
    first_stays young = (
      sealed (
          codec.seal fresh.iv (
            content_of sessions (
              token_login c (nonce_of c letters)
                (serializer.dumps now (payload_of c (nonce_of c letters)))
                (ttl_of ttl token_timeout) fresh))),
      rw
          (create_free r codec sessions
            (token_login c (nonce_of c letters)
              (serializer.dumps now (payload_of c (nonce_of c letters))) (ttl_of ttl token_timeout)
              fresh)
            s vacant)
          (get-tick_put r s _ _ (some (ttl_of ttl token_timeout)) n _
            ∙ rw (eq_refl (session_key (some c.id) (nonce_of c letters) none))
                (rw (lt→ltb n (ttl_of ttl token_timeout) young))),
    )

    second_unchanged : n < ttl_of ttl token_timeout → second.0 ≡ r.tick first.0 n
    unfolding request_contact token_login token_of
    second_unchanged young =
        let (v, there) = first_stays young in
        rw (
          create_taken r codec sessions
            (token_login c (nonce_of c letters)
              (serializer.dumps (now + n) (payload_of c (nonce_of c letters)))
              (ttl_of ttl' token_timeout) fresh')
            (r.tick first.0 n) true v there)

    -- the session of the first request, when it has expired
    first_gone :
        (k : ℕ)
        → ltb k (ttl_of ttl token_timeout) ≡ false
        → get r (r.tick first.0 k) (session_key (some c.id) (nonce_of c letters) none) ≡ none
    unfolding request_contact token_login token_of
    first_gone k over =
        rw
          (create_free r codec sessions
            (token_login c (nonce_of c letters)
              (serializer.dumps now (payload_of c (nonce_of c letters))) (ttl_of ttl token_timeout)
              fresh)
            s vacant)
          (get-tick_put r s _ _ (some (ttl_of ttl token_timeout)) k _
            ∙ rw (eq_refl (session_key (some c.id) (nonce_of c letters) none)) (rw over))

    held_as_first :
        (age : ℕ)
        → n < ttl_of ttl token_timeout
        → get_arg r codec true (r.tick second.0 age) (some c.id) (nonce_of c letters) "param" none
          ≡ get_arg r codec true
              (r.tick first.0 (n + age))
              (some c.id)
              (nonce_of c letters)
              "param"
              none
    held_as_first age young =
        ap
          (λ (t : r.State).
            get_arg r codec true (r.tick t age) (some c.id) (nonce_of c letters) "param" none)
          (second_unchanged young)
        ∙ get_arg_same _ _ (some c.id) (nonce_of c letters) "param" (tick_twice first.0 n age _)

    -- what the session holds while the token of the second request is valid: the first token, or nothing
    second_param :
        (age : ℕ)
        → n < ttl_of ttl token_timeout
        → let held =
            get_arg r codec true
              (r.tick second.0 age)
              (some c.id)
              (nonce_of c letters)
              "param"
              none in
          (held ≡ ok (some (serializer.dumps now (payload_of c (nonce_of c letters)))))
          ⊎ (held ≡ ok none)
    second_param age young = elim (Bool-cases (ltb (n + age) (ttl_of ttl token_timeout))) [
      | inl lasting ↦ inl (
          held_as_first age young
          ∙ requested_param r codec sessions serializer token_timeout sends now (n + age) letters
              fresh ttl template c s vacant (ground (arith, lasting)))
      | inr over ↦ inr (
          held_as_first age young
          ∙ get_arg_absent _ (some c.id) (nonce_of c letters) "param" (first_gone (n + age) over))
    ]

    param_apart :
        (param : Option String) (old new : String)
        → (param ≡ some old) ⊎ (param ≡ none)
        → old ≢ new
        → (param == some new) ≡ false
    param_apart param old new held differ = elim (Bool-cases (param == some new)) [
      | inl same ↦
          let e : param ≡ some new = (option_beq_iff param (some new)).0 same in
          elim held [
            | inl first_one ↦ absurd (differ (some_injective (sym first_one ∙ e)))
            | inr nothing ↦ absurd (cc)
          ]
      | inr other ↦ other
    ]

    refused_with :
        (clear : Bool) (age : ℕ) (fresh2 : Fresh) (d : Directory) (param : Option String)
        → free ":" c.id ≡ true
        → free ":" c.info ≡ true
        → free ":" (nonce_of c letters) ≡ true
        → age ≤ token_timeout
        → get_arg r codec true (r.tick second.0 age) (some c.id) (nonce_of c letters) "param" none
          ≡ ok param
        → (param == some (serializer.dumps (now + n) (payload_of c (nonce_of c letters)))) ≡ false
        → (confirm r codec sessions serializer token_timeout true clear
            (now + n + age)
            fresh2
            (serializer.dumps (now + n) (payload_of c (nonce_of c letters)))
            d
            (r.tick second.0 age)).2
          ≡ ok (rejected 403)
    refused_with clear age fresh2 d param hid hinfo hnonce fit held apart =
        ap (λ (ended : r.State × Directory × Result Confirmed). ended.2)
          (confirm_other clear (now + n + age) fresh2 _ c.id c.info (nonce_of c letters) param d _
            (ap parts_of (serializer.loads-dumps (now + n) age token_timeout _ fit)
              ∙ parts_of-payload_of c (nonce_of c letters) hid hinfo hnonce)
            held apart)

    pub second_refused :
        (clear : Bool) (age : ℕ) (fresh2 : Fresh) (d : Directory)
        → free ":" c.id ≡ true
        → free ":" c.info ≡ true
        → free ":" (nonce_of c letters) ≡ true
        → n < ttl_of ttl token_timeout
        → age ≤ token_timeout
        → serializer.dumps now (payload_of c (nonce_of c letters))
          ≢ serializer.dumps (now + n) (payload_of c (nonce_of c letters))
        → (confirm r codec sessions serializer token_timeout true clear
            (now + n + age)
            fresh2
            (serializer.dumps (now + n) (payload_of c (nonce_of c letters)))
            d
            (r.tick second.0 age)).2
          ≡ ok (rejected 403)
    second_refused clear age fresh2 d hid hinfo hnonce young fit differ =
        elim (second_param age young) [
          | inl held ↦
              refused_with clear age fresh2 d _ hid hinfo hnonce fit held
                (param_apart _ _ _ (inl refl) differ)
          | inr held ↦ refused_with clear age fresh2 d none hid hinfo hnonce fit held refl
        ]
