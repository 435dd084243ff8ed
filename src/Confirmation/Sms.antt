-- ===== src/Confirmation/Sms.antt =====
-- apicrud/messaging/confirmation.py: a token that is given twice, and a second request for a contact.
use Prim.Native.String.{String}
use apicrud.Prelude.{
  ℕ, ◌+◌, ◌≤◌, ◌<◌, Bool, true, false, Option, none, some, ◌≡◌, ◌≢◌, refl, ap, ◌∙◌, arith, ◌==◌,
  text_eq, option_eq, eq_refl,
}
use apicrud.Python.Result.{ok}
use apicrud.Python.Text.{free}
use apicrud.Redis.{Redis, get}
use apicrud.Session.{Content, Codec, Config, get_arg, delete_session, session_key, token_of}
use apicrud.Session.Laws.{later-create}
use apicrud.Auth.Roles.{Fresh}
use apicrud.Confirmation.{
  Serializer, Contact, Directory, payload_of, nonce_of, ttl_of, confirmed_login, rejected, parts_of,
  request_contact, open_session, confirm_contact, confirm,
}
use apicrud.Confirmation.Second.{confirm_other, get_arg_absent, second_refused}
use apicrud.Confirmation.Token.{confirm_found}

sms_nonce : (c : Contact) (letters : String) → (c.kind == "sms") ≡ true → nonce_of c letters ≡ "1"
unfolding nonce_of
sms_nonce c letters sms = rw sms

module _ {B : Type 0} (r : Redis B) (codec : Codec B) (sessions : Config) (serializer : Serializer)
    (token_timeout : ℕ) where
  open_session_redis :
      (d : Directory) (made : r.State × Option Content)
      → (open_session r codec sessions serializer token_timeout d made).0 ≡ made.0
  unfolding open_session
  open_session_redis d (s, none) = refl
  open_session_redis d (s, some content) = refl

  -- what a confirmation that clears the session leaves of it
  cleared :
      (fresh : Fresh) (id info nonce : String) (c : Contact) (d : Directory) (s : r.State) (n : ℕ)
      → (session_key (some c.uid) fresh.token none == session_key (some id) nonce none) ≡ false
      → r.get_later
          (confirm_contact r codec sessions serializer token_timeout true true fresh id info nonce
            (some c)
            d
            s).0
          n
          (session_key (some id) nonce none)
        ≡ none
  unfolding confirm_contact delete_session confirmed_login token_of
  cleared fresh id info nonce c d s n apart =
      let key = session_key (some id) nonce none in
      ap (λ (t : r.State). r.get_later t n key) (open_session_redis _ _)
      ∙ later-create r codec sessions (confirmed_login (record c { id = id }) info true fresh)
          (r.delete s key) n key apart
      ∙ r.later-delete s key n key
      ∙ rw (eq_refl key)

  -- A confirmation that clears the session opens a session at most once: given again with the same
  -- token, at any later time and for any tables, it is rejected with status 403 and changes nothing,
  -- unless another command comes in, if the session of the contact and the one that is opened have
  -- different keys.
  pub confirm_once :
      (now now' n : ℕ) (clear : Bool) (fresh fresh' : Fresh) (token id info nonce : String)
      (c : Contact) (d d' : Directory) (s : r.State)
      → parts_of (serializer.loads now token_timeout token) ≡ some (id, info, nonce)
      → parts_of (serializer.loads now' token_timeout token) ≡ some (id, info, nonce)
      → get_arg r codec true s (some id) nonce "param" none ≡ ok (some token)
      → d.contact id ≡ some c
      → (session_key (some c.uid) fresh.token none == session_key (some id) nonce none) ≡ false
      → let ended =
          confirm r codec sessions serializer token_timeout true true now fresh token d s in
        confirm r codec sessions serializer token_timeout true clear now' fresh' token d'
          (r.tick ended.0 n)
        ≡ (r.tick ended.0 n, d', ok (rejected 403))
  confirm_once now now' n clear fresh fresh' token id info nonce c d d' s parts parts' param known
        apart =
      let sum : n + 0 ≡ n = omega arith in
      confirm_other r codec sessions serializer token_timeout clear now' fresh' token id info nonce
        none d' _ parts'
        (get_arg_absent r codec sessions serializer token_timeout _ (some id) nonce "param" (
          r.later-tick _ n 0 (session_key (some id) nonce none)
          ∙ rw
              (
                sum,
                confirm_found r codec sessions serializer token_timeout true now fresh token id info
                    nonce c d s parts param known,
              )
              (cleared fresh id info nonce c d s n apart)))
        refl

  -- When a contact is asked to confirm by SMS a second time, while the session of the first request
  -- lasts, and the two tokens differ, the second token is refused with status 403 at any time until it
  -- expires, unless another command comes in: the nonce of both requests is `1`, so that the session
  -- keeps the first token, and is gone after it. The id and the info of the contact have no colon.
  pub sms_second_refused :
      (sends clear : Bool) (now n age : ℕ) (letters : String) (fresh fresh' fresh2 : Fresh)
      (ttl ttl' : Option ℕ) (template : String) (c : Contact) (d : Directory) (s : r.State)
      → (c.kind == "sms") ≡ true
      → get r s (session_key (some c.id) "1" none) ≡ none
      → free ":" c.id ≡ true
      → free ":" c.info ≡ true
      → n < ttl_of ttl token_timeout
      → age ≤ token_timeout
      → serializer.dumps now (payload_of c "1") ≢ serializer.dumps (now + n) (payload_of c "1")
      → let first =
          request_contact r codec sessions serializer token_timeout true sends now letters fresh ttl
            template c s in
        let second =
          request_contact r codec sessions serializer token_timeout true sends
            (now + n)
            letters
            fresh'
            ttl'
            template
            c
            (r.tick first.0 n) in
        (confirm r codec sessions serializer token_timeout true clear
          (now + n + age)
          fresh2
          second.1.token
          d
          (r.tick second.0 age)).2
        ≡ ok (rejected 403)
  unfolding request_contact
  sms_second_refused sends clear now n age letters fresh fresh' fresh2 ttl ttl' template c d s sms
        vacant hid hinfo young fit differ =
      let one = sms_nonce c letters sms in
      second_refused r codec sessions serializer token_timeout sends now n letters fresh fresh' ttl
        ttl' template c s (rw one vacant) clear age fresh2 d hid hinfo
        (rw one (unfold free in refl)) young fit (rw one differ)
