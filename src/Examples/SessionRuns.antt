-- ===== src/Examples/SessionRuns.antt =====
-- Sessions in a table, with a codec that hides nothing.
use Prim.Native.String.{String}
use apicrud.Prelude.{true, none, some, [], ◌∷◌, ◌≡◌, refl}
use apicrud.Python.Result.{ok}
use apicrud.Python.Text.{show, truthy, last_chars}
use apicrud.Python.Dict.{lookup, insert, merge}
use apicrud.Redis.{Redis}
use apicrud.Redis.Table.{table, Table, empty_table}
use apicrud.Session.{
  Content, Codec, Config, Login, session_key, token_of, content_of, create, get_session, decoded,
  read, checked,
}
use apicrud.Session.Laws.{get_session-token, get-create}
use apicrud.Python.Sort.{leb_text}
use apicrud.Local.{basic, by_session, by_token, token_ok}
use apicrud.Local.Token.{IsCurrent, basic-IsCurrent}

abbrev plain : Codec Content
plain = record { seal = λ iv c. c; unseal = λ c. some c; unseal-seal = λ iv c. refl }

abbrev config : Config
config = record { jwt_issuer = "apicrud"; ttl = 1200 }

abbrev login : Login
login = record {
  uid = some "u-1";
  roles = "user" ∷ [];
  key_id = none;
  nonce = none;
  ttl = some 300;
  extra = ("acc", some "x-9") ∷ [];
  random_token = "Rabcd123";
  exp = "1700000000";
  iv = "0123456789abcdef";
}

abbrev store : Redis Content
store = table Content

abbrev empty : Table Content
empty = empty_table Content

-- redis, with that session in it
abbrev one_session : Table Content
one_session = (create store plain config true login empty).0

get-create_example :
    ((create store plain config true login empty).1 ≡ some (content_of config login))
    × (get_session store plain true (store.tick one_session 300) (some "u-1") "Rabcd123" none
        ≡ ok none)
unfolding token_of lookup
get-create_example = get-create store plain config login empty 300 refl refl

found_session :
    get_session store plain true one_session (some "u-1") "Rabcd123" none
    ≡ ok (some (content_of config login))
unfolding create get_session read decoded checked session_key token_of content_of show truthy
    last_chars lookup merge insert
found_session = refl

get_session-token_example : lookup "jti" (content_of config login) ≡ some (some "Rabcd123")
get_session-token_example =
    get_session-token store plain true one_session (some "u-1") "Rabcd123" none found_session

basic-IsCurrent_example :
    (◌≡◌ {A = String} "u-1" "u-1")
    × ((basic store plain true "1600000000" "u-1" "Rabcd123" one_session).0 ≡ one_session)
    × ((content : Content) × (get_session store plain true one_session (some "u-1") "Rabcd123" none
          ≡ ok (some content))
        × IsCurrent "1600000000" "u-1" "Rabcd123" content)
unfolding basic by_session by_token token_ok leb_text create get_session read decoded checked
    session_key token_of content_of show truthy last_chars lookup merge insert
basic-IsCurrent_example =
    basic-IsCurrent store plain true "1600000000" "u-1" "Rabcd123" "u-1" one_session refl
