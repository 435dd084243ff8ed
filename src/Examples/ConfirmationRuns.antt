-- ===== src/Examples/ConfirmationRuns.antt =====
-- A contact that is confirmed by mail, and two requests by SMS.
use Prim.Native.String.{String}
use apicrud.Prelude.{
  true, none, some, ◌≡◌, refl, arith, if◌then◌else◌, ◌==◌, char_eq, text_eq, number_eq, option_eq,
}
use apicrud.Python.Result.{ok}
use apicrud.Python.Text.{show, truthy, last_chars, split, free}
use apicrud.Python.Dict.{lookup, insert, merge}
use apicrud.Redis.{Redis}
use apicrud.Redis.Table.{table, Table, empty_table}
use apicrud.Session.{
  Content, Codec, Config, session_key, token_of, content_of, create, get_arg, get_session, read,
  decoded, checked,
}
use apicrud.Auth.Roles.{Fresh}
use apicrud.Confirmation.{
  Contact, Directory, activate, payload_of, nonce_of, ttl_of, token_login, confirmed_login,
  Requested, rejected, opened, three_parts, parts_of, request_contact, confirm,
}
use apicrud.Examples.Stamps.{stamps}
use apicrud.Confirmation.Token.{ByToken, confirm-request, confirm-ByToken}
use apicrud.Confirmation.Sms.{confirm_once, sms_second_refused}

abbrev plain : Codec Content
plain = record { seal = λ iv c. c; unseal = λ c. some c; unseal-seal = λ iv c. refl }

abbrev config : Config
config = record { jwt_issuer = "apicrud"; ttl = 1200 }

abbrev store : Redis Content
store = table Content

abbrev empty : Table Content
empty = empty_table Content

abbrev by_mail : Contact
by_mail = record {
  id = "x-1";
  info = "a@b.net";
  kind = "email";
  uid = "u-1";
  status = "unconfirmed";
  owner_name = "Alice";
}

abbrev by_sms : Contact
by_sms = record by_mail { info = "+14155550100"; kind = "sms" }

abbrev people : Contact → Directory
people c = record {
  contact = λ id. if id == "x-1" then some c else none;
  referrer = λ uid. some (some "u-2");
}

abbrev fresh : String → Fresh
fresh token = record { token = token; exp = "1700000000"; iv = "0123456789abcdef" }

-- redis, and what is returned, for a request in second 2
abbrev asked : Table Content × Requested
asked =
    request_contact store plain config stamps 300 true true 2 "abcdefgh" (fresh "T1") none "confirm"
      by_mail empty

confirm-request_example :
    ((confirm store plain config stamps 300 true true 62
        (fresh "Rabcd123")
        asked.1.token
        (people by_mail)
        (store.tick asked.0 60)).1
      ≡ activate "x-1" "u-1" (people by_mail))
    × ((confirm store plain config stamps 300 true true 62
          (fresh "Rabcd123")
          asked.1.token
          (people by_mail)
          (store.tick asked.0 60)).2
        ≡ ok (
            opened (content_of config (confirmed_login by_mail "a@b.net" true (fresh "Rabcd123")))))
unfolding free nonce_of ttl_of request_contact create session_key token_of token_login show truthy
    last_chars
confirm-request_example =
    confirm-request store plain config stamps 300 true true 2 60 "abcdefgh" (fresh "T1")
      (fresh "Rabcd123") none "confirm" by_mail (people by_mail) empty refl refl refl refl
      (omega arith) (omega arith) refl refl

sms_second_refused_example :
    (confirm store plain config stamps 300 true true 312
      (fresh "Rabcd123")
      (request_contact store plain config stamps 300 true true 32 "abcdefgh"
        (fresh "T2")
        none
        "confirm"
        by_sms
        (store.tick
          (request_contact store plain config stamps 300 true true 2 "abcdefgh"
            (fresh "T1")
            none
            "confirm"
            by_sms
            empty).0
          30)).1.token
      (people by_sms)
      (store.tick
        (request_contact store plain config stamps 300 true true 32 "abcdefgh"
          (fresh "T2")
          none
          "confirm"
          by_sms
          (store.tick
            (request_contact store plain config stamps 300 true true 2 "abcdefgh"
              (fresh "T1")
              none
              "confirm"
              by_sms
              empty).0
            30)).0
        280)).2
    ≡ ok (rejected 403)
unfolding free ttl_of payload_of session_key show truthy last_chars
sms_second_refused_example =
    sms_second_refused store plain config stamps 300 true true 2 30 280 "abcdefgh" (fresh "T1")
      (fresh "T2") (fresh "Rabcd123") none none "confirm" by_sms (people by_sms) empty refl refl
      refl refl (omega arith) (omega arith) (λ e. cc e)

confirm_once_example :
    confirm store plain config stamps 300 true true 70
      (fresh "Rzzzz123")
      asked.1.token
      (people by_mail)
      (store.tick
        (confirm store plain config stamps 300 true true 62
          (fresh "Rabcd123")
          asked.1.token
          (people by_mail)
          (store.tick asked.0 60)).0
        8)
    ≡ (
      store.tick
          (confirm store plain config stamps 300 true true 62
            (fresh "Rabcd123")
            asked.1.token
            (people by_mail)
            (store.tick asked.0 60)).0
          8,
      people by_mail,
      ok (rejected 403),
    )
unfolding free nonce_of ttl_of payload_of parts_of three_parts split request_contact create
    session_key token_of token_login content_of get_arg get_session read decoded checked lookup
    merge insert show truthy last_chars
confirm_once_example =
    confirm_once store plain config stamps 300 62 70 8 true (fresh "Rabcd123") (fresh "Rzzzz123")
      asked.1.token "x-1" "a@b.net" "abcdefgh" by_mail (people by_mail) (people by_mail)
      (store.tick asked.0 60) refl refl refl refl refl

confirm-ByToken_example :
    ByToken store plain config stamps 300 asked.1.token 62
      (people by_mail)
      (store.tick asked.0 60)
      (confirm store plain config stamps 300 true true 62
        (fresh "Rabcd123")
        asked.1.token
        (people by_mail)
        (store.tick asked.0 60)).1
confirm-ByToken_example =
    confirm-ByToken store plain config stamps 300 true 62 (fresh "Rabcd123") asked.1.token
      (people by_mail) (store.tick asked.0 60)
