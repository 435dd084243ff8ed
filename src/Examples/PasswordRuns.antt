-- ===== src/Examples/PasswordRuns.antt =====
-- A password that is changed with the old one, and the login behind it.
use Prim.Native.String.{String}
use apicrud.Prelude.{
  if◌then◌else◌, true, false, Option, none, some, ◌≡◌, inl, inr, refl, ap, ◌==◌, text_eq, option_eq,
  eq_refl, eq_iff, Bool-cases,
}
use apicrud.Python.Result.{ok}
use apicrud.Python.Text.{in_text, to_list}
use apicrud.Redis.{Redis}
use apicrud.Redis.Table.{table, Table, empty_table}
use apicrud.Database.{Session}
use apicrud.Session.{Content, Codec, Config}
use apicrud.Auth.Login.{known}
use apicrud.Confirmation.{Directory}
use apicrud.Local.{
  Crypt, Local, Lookup, one, verified, local_login, account_of, missing, password_weak, lacks,
  is_lower, is_upper, is_digit, is_punctuation,
}
use apicrud.Local.Password.{
  Change, Ended, renewed, set_password, if_verified, by_proof, for_account, matching,
  change_password,
}
use apicrud.Local.Password.Changed.{
  IsDone, Accepted, change_password-Accepted, local_login-change_password,
}
use apicrud.Examples.Stamps.{stamps}

abbrev plain : Codec Content
plain = record { seal = λ iv c. c; unseal = λ c. some c; unseal-seal = λ iv c. refl }

abbrev store : Redis Content
store = table Content

abbrev empty : Table Content
empty = empty_table Content

abbrev sessions : Config
sessions = record { jwt_issuer = "apicrud"; ttl = 1200 }

abbrev marked : String → String
marked password = String.◌∷◌ "$" password

marked_some : (password : String) → (marked password == "") ≡ false
marked_some password = elim (Bool-cases (marked password == "")) [
  | inl same ↦ let e : marked password ≡ "" = (eq_iff (marked password) "").0 same in absurd (cc)
  | inr other ↦ other
]

-- a hash that hides nothing
abbrev clear : Crypt
clear = record {
  hash = λ salt password. marked password;
  verify = λ password hash. ok (marked password == hash);
  verify-hash = λ salt password. ap ok (eq_refl (marked password));
  hash_some = λ salt password. marked_some password;
}

abbrev alice : Local
alice = record {
  account = record {
    id = "x-1";
    uid = "u-1";
    is_admin = false;
    password_must_change = true;
    totp = false;
    identity = "a@b.net";
  };
  name = "alice";
  password = some (marked "Old1word");
}

abbrev change : Change
change = record {
  uid = "u-1";
  new_password = some "New2word";
  reset_token = none;
  old_password = some "Old1word";
  verify_password = some "New2word";
  salt = "s";
  now = 60;
  up = true;
  fresh = record { token = "Rabcd123"; exp = "1700000000"; iv = "0123456789abcdef" };
}

abbrev nobody : Directory
nobody = record { contact = λ id. none; referrer = λ uid. none }

abbrev accounts : Session (Option Local)
accounts = record { now = some alice; saved = some alice }

abbrev ended : Ended store plain sessions stamps 300 clear
ended = change_password store plain sessions stamps 300 clear change empty nobody accounts

ended-IsDone : IsDone store plain sessions stamps 300 clear ended
unfolding change_password matching for_account by_proof if_verified set_password verified
    password_weak lacks is_lower is_upper is_digit is_punctuation to_list
ended-IsDone = ("x-1", "u-1", "alice", refl)

ended_saved :
    ended.accounts.saved
    ≡ some (renewed store plain sessions stamps 300 clear change "New2word" alice)
unfolding change_password matching for_account by_proof if_verified set_password verified
    password_weak lacks is_lower is_upper is_digit is_punctuation to_list
ended_saved = refl

change_password-Accepted_example :
    (new : String) × (change.new_password ≡ some new)
    × ((new == "") ≡ false)
    × (change.verify_password ≡ some new)
    × Accepted store plain sessions stamps 300 clear change new empty nobody accounts ended
change_password-Accepted_example =
    change_password-Accepted store plain sessions stamps 300 clear change empty nobody accounts
      ended-IsDone

abbrev found_renewed : String → Lookup
found_renewed identity =
    if identity == "a@b.net"
    then one (renewed store plain sessions stamps 300 clear change "New2word" alice)
    else missing

abbrev no_name : String → Lookup
no_name username = missing

local_login-change_password_example :
    (local_login clear found_renewed no_name "a@b.net" (some "New2word")
      ≡ ok (known (record alice.account { password_must_change = false })))
    × (false ≡ false)
unfolding account_of in_text
local_login-change_password_example =
    local_login-change_password store plain sessions stamps 300 clear change empty nobody accounts
      "New2word" "a@b.net" found_renewed no_name
      (renewed store plain sessions stamps 300 clear change "New2word" alice) ended-IsDone refl
      ended_saved refl
