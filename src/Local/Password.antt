-- ===== src/Local/Password.antt =====
-- apicrud/auth/local_user.py: LocalUser.change_password and forgot_password. The proofs are in the module
-- below.
pub mod Changed
use Prim.Native.String.{String}
use apicrud.Prelude.{
  ℕ, Bool, true, false, not, ◌||◌, Option, none, some, if◌then◌else◌, ◌==◌, text_eq, option_eq,
}
use apicrud.Python.Result.{Exn, Result, ok, err, ◌>>=◌}
use apicrud.Python.Text.{truthy}
use apicrud.Redis.{Redis}
use apicrud.Database.{Session, commit}
use apicrud.Session.{Codec, Config}
use apicrud.Auth.Roles.{Fresh}
use apicrud.Confirmation.{
  Serializer, Contact, Directory, Requested, Confirmed, rejected, opened, request, confirm,
}
use apicrud.Utils.{identity_normalize}
use apicrud.Local.{Crypt, Local, verified, password_weak}

-- what change_password returns: a status, or the account with status 200
pub data Reply : Type 0 where
  refused : ℕ → Reply
  changed : (id uid username : String) → Reply

-- the arguments, and the time and the values that the call draws; `up` says whether redis answers
pub record Change : Type 0 where
  pub uid : String
  pub new_password : Option String
  pub reset_token : Option String
  pub old_password : Option String
  pub verify_password : Option String
  pub salt : String
  pub now : ℕ
  pub up : Bool
  pub fresh : Fresh

module _ {B : Type 0} (r : Redis B) (codec : Codec B) (sessions : Config) (serializer : Serializer)
    (token_timeout : ℕ) (crypt : Crypt) where
  -- redis, the tables of contacts and persons, the account, and the answer
  pub record Ended : Type 0 where
    pub redis : r.State
    pub directory : Directory
    pub accounts : Session (Option Local)
    pub reply : Result Reply

  abbrev pub settled : r.State → Directory → Session (Option Local) → Result Reply → Ended
  settled s d accounts reply = record {
    redis = s;
    directory = d;
    accounts = accounts;
    reply = reply;
  }

  -- account.password and password_must_change
  abbrev pub renewed : Change → String → Local → Local
  renewed change new a = record a {
    account = record a.account { password_must_change = false };
    password = some (crypt.hash change.salt new);
  }

  -- with the commit
  unfoldable pub set_password :
      Change → String → Local → r.State → Directory → Session (Option Local) → Ended
  set_password change new a s d accounts =
      settled s d (commit (record accounts { now = some (renewed change new a) }))
        (ok (changed a.account.id change.uid a.name))

  unfoldable pub if_verified :
      Change → String → Local → Result Bool → r.State → Directory → Session (Option Local) → Ended
  if_verified change new a (err e) s d accounts = settled s d accounts (err e)
  if_verified change new a (ok false) s d accounts = settled s d accounts (ok (refused 403))
  if_verified change new a (ok true) s d accounts = set_password change new a s d accounts

  unfoldable pub if_confirmed :
      Change
      → String
      → Local
      → r.State × Directory × Result Confirmed
      → Session (Option Local)
      → Ended
  if_confirmed change new a (s, d, err e) accounts = settled s d accounts (err e)
  if_confirmed change new a (s, d, ok (rejected code)) accounts =
      settled s d accounts (ok (refused 405))
  if_confirmed change new a (s, d, ok (opened content)) accounts =
      set_password change new a s d accounts

  -- Confirmation().confirm(reset_token, clear_session=True): without a token, loads raises an exception
  unfoldable pub confirm_given :
      Change → Option String → r.State → Directory → r.State × Directory × Result Confirmed
  confirm_given change none s d = (s, d, ok (rejected 403))
  confirm_given change (some token) s d =
      confirm r codec sessions serializer token_timeout change.up true change.now change.fresh token
        d s

  -- `if old_password`, or a reset token
  unfoldable pub by_proof :
      Change → String → Local → Option String → r.State → Directory → Session (Option Local) → Ended
  by_proof change new a none s d accounts =
      if_confirmed change new a (confirm_given change change.reset_token s d) accounts
  by_proof change new a (some old) s d accounts =
      if old == ""
      then if_confirmed change new a (confirm_given change change.reset_token s d) accounts
      else if_verified change new a (verified crypt old a.password) s d accounts

  -- behind the query for the account
  unfoldable pub for_account :
      Change → String → Option Local → r.State → Directory → Session (Option Local) → Ended
  for_account change new none s d accounts = settled s d accounts (ok (refused 404))
  for_account change new (some a) s d accounts =
      if password_weak new
      then settled s d accounts (ok (refused 405))
      else by_proof change new a change.old_password s d accounts

  unfoldable pub matching :
      Change → Option String → r.State → Directory → Session (Option Local) → Ended
  matching change none s d accounts = settled s d accounts (ok (refused 405))
  matching change (some new) s d accounts =
      if new == "" || not (change.verify_password == some new)
      then settled s d accounts (ok (refused 405))
      else for_account change new accounts.now s d accounts

  -- change_password, for the active account of the uid in the database
  unfoldable pub change_password : Change → r.State → Directory → Session (Option Local) → Ended
  change_password change s d accounts = matching change change.new_password s d accounts

  abbrev pub normalized : Option String → Option String
  normalized none = none
  normalized (some identity) = identity_normalize identity

  abbrev pub asked : r.State × Result Requested → r.State × Result (Option Requested)
  asked (s, err e) = (s, err e)
  asked (s, ok requested) = (s, ok (some requested))

  -- Confirmation().request, or status 404, which `none` stands for
  unfoldable pub forgot_found :
      (up sends : Bool) (now : ℕ) (letters : String) (fresh : Fresh) (template : String)
      → Directory
      → Option String
      → r.State
      → r.State × Result (Option Requested)
  forgot_found up sends now letters fresh template d none s = (s, ok none)
  forgot_found up sends now letters fresh template d (some id) s = asked (
      request r codec sessions serializer token_timeout up sends now letters fresh none template id
        (d.contact id) s)

  -- forgot_password: `find` is the id of the contact that the two queries find, for an account that is
  -- active and no administrator's
  unfoldable pub forgot_password :
      (up sends : Bool) (now : ℕ) (letters : String) (fresh : Fresh) (template : String)
      → (find : (identity username : Option String) → Option String)
      → (identity username : Option String) → Directory
      → r.State
      → r.State × Result (Option Requested)
  forgot_password up sends now letters fresh template find identity username d s =
      forgot_found up sends now letters fresh template d (find (normalized identity) username) s
