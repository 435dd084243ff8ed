-- ===== src/Local/Password/Changed.antt =====
-- apicrud/auth/local_user.py, change_password, and the login of local_func.py behind it.
use Prim.Native.String.{String}
use apicrud.Prelude.{
  ℕ, Bool, true, false, not, ◌||◌, Option, none, some, ◌≡◌, ◌⊎◌, inl, inr, refl, sym, ap, ◌∙◌, ◌==◌,
  text_eq, option_eq, option_beq_iff, subst, if_cases, arith,
}
use apicrud.Python.Result.{Result, ok, err}
use apicrud.Redis.{Redis}
use apicrud.Database.{Session}
use apicrud.Session.{Content, Codec, Config}
use apicrud.Auth.Login.{known}
use apicrud.Confirmation.{Serializer, Directory, Confirmed, rejected, opened}
use apicrud.Local.{
  Crypt, Local, Lookup, one, verified, password_weak, by_verify, by_password, by_lookup, account_of,
  local_login,
}
use apicrud.Local.Password.{
  changed, Change, Ended, renewed, set_password, if_verified, if_confirmed, confirm_given, by_proof,
  for_account, matching, change_password,
}

module _ {B : Type 0} (r : Redis B) (codec : Codec B) (sessions : Config) (serializer : Serializer)
    (token_timeout : ℕ) (crypt : Crypt) where
  -- the call ends with status 200
  abbrev pub IsDone : Ended r codec sessions serializer token_timeout crypt → Type 0
  IsDone ended =
      (id : String) × (uid : String) × (username : String) × (ended.reply
        ≡ ok (changed id uid username))

  abbrev pub Stored :
      Change → String → Local → Ended r codec sessions serializer token_timeout crypt → Type 0
  Stored change new a ended =
      ended.accounts.saved
      ≡ some (renewed r codec sessions serializer token_timeout crypt change new a)

  -- the caller knows the old password, or has a token that `confirm` takes
  abbrev pub IsProved : Change → Local → r.State → Directory → Type 0
  IsProved change a s d =
      ((old : String) × (change.old_password ≡ some old)
        × (verified crypt old a.password ≡ ok true))
      ⊎ ((content : Content) × ((confirm_given r codec sessions serializer token_timeout crypt
              change change.reset_token s d).2
            ≡ ok (opened content)))

  if_verified-Stored :
      (change : Change) (new : String) (a : Local) (test : Result Bool) (s : r.State)
      (d : Directory) (accounts : Session (Option Local))
      → IsDone (
          if_verified r codec sessions serializer token_timeout crypt change new a test s d
            accounts)
      → (test ≡ ok true)
        × Stored change new a (
            if_verified r codec sessions serializer token_timeout crypt change new a test s d
              accounts)
  unfolding if_verified set_password
  if_verified-Stored change new a (err e) s d accounts (id, uid, username, h) = absurd (cc)
  if_verified-Stored change new a (ok false) s d accounts (id, uid, username, h) = absurd (cc)
  if_verified-Stored change new a (ok true) s d accounts done = (refl, refl)

  if_confirmed-Stored :
      (change : Change) (new : String) (a : Local) (p : r.State × Directory × Result Confirmed)
      (accounts : Session (Option Local))
      → IsDone
          (if_confirmed r codec sessions serializer token_timeout crypt change new a p accounts)
      → ((content : Content) × (p.2 ≡ ok (opened content)))
        × Stored change new a
            (if_confirmed r codec sessions serializer token_timeout crypt change new a p accounts)
  unfolding if_confirmed set_password
  if_confirmed-Stored change new a (s, d, err e) accounts (id, uid, username, h) = absurd (cc)
  if_confirmed-Stored change new a (s, d, ok (rejected code)) accounts (id, uid, username, h) =
      absurd (cc)
  if_confirmed-Stored change new a (s, d, ok (opened content)) accounts done =
      ((content, refl), refl)

  -- a password that has been changed, with a proof
  abbrev Proved :
      Change
      → String
      → Local
      → r.State
      → Directory
      → Ended r codec sessions serializer token_timeout crypt
      → Type 0
  Proved change new a s d ended = IsProved change a s d × Stored change new a ended

  by_confirm-Proved :
      (change : Change) (new : String) (a : Local) (s : r.State) (d : Directory)
      (accounts : Session (Option Local))
      → let ended =
          if_confirmed r codec sessions serializer token_timeout crypt change new a
            (confirm_given r codec sessions serializer token_timeout crypt change change.reset_token
              s d)
            accounts in
        IsDone ended → Proved change new a s d ended
  by_confirm-Proved change new a s d accounts done =
      let (opens, stored) = if_confirmed-Stored change new a _ accounts done in (inr opens, stored)

  by_proof-Proved :
      (change : Change) (new : String) (a : Local) (old : Option String) (s : r.State)
      (d : Directory) (accounts : Session (Option Local))
      → change.old_password ≡ old
      → IsDone
          (by_proof r codec sessions serializer token_timeout crypt change new a old s d accounts)
      → Proved change new a s d
          (by_proof r codec sessions serializer token_timeout crypt change new a old s d accounts)
  unfolding by_proof
  by_proof-Proved change new a none s d accounts given =
      λ done. by_confirm-Proved change new a s d accounts done
  by_proof-Proved change new a (some old) s d accounts given =
      if_cases
        (λ (ended : Ended r codec sessions serializer token_timeout crypt).
          IsDone ended → Proved change new a s d ended)
        (old == "") _ _ (λ empty done. by_confirm-Proved change new a s d accounts done)
        (λ has done.
          let (right, stored) = if_verified-Stored change new a _ s d accounts done in
          (inl (old, given, right), stored))

  -- what status 200 stands for
  abbrev pub Accepted :
      Change
      → String
      → r.State
      → Directory
      → Session (Option Local)
      → Ended r codec sessions serializer token_timeout crypt
      → Type 0
  Accepted change new s d accounts ended =
      (a : Local) × (accounts.now ≡ some a)
      × (password_weak new ≡ false)
      × IsProved change a s d
      × Stored change new a ended

  for_account-Accepted :
      (change : Change) (new : String) (found : Option Local) (s : r.State) (d : Directory)
      (accounts : Session (Option Local))
      → accounts.now ≡ found
      → IsDone (
          for_account r codec sessions serializer token_timeout crypt change new found s d accounts)
      → Accepted change new s d accounts (
          for_account r codec sessions serializer token_timeout crypt change new found s d accounts)
  unfolding for_account
  for_account-Accepted change new none s d accounts there = λ (id, uid, username, h). absurd (cc)
  for_account-Accepted change new (some a) s d accounts there =
      if_cases
        (λ (ended : Ended r codec sessions serializer token_timeout crypt).
          IsDone ended → Accepted change new s d accounts ended)
        (password_weak new) _ _ (λ weak (id, uid, username, h). absurd (cc))
        (λ strong done.
          let (proved, stored) =
            by_proof-Proved change new a change.old_password s d accounts refl done in
          (a, there, strong, proved, stored))

  not-false : (b : Bool) → not b ≡ false → b ≡ true
  not-false b h = ground arith

  matching-Accepted :
      (change : Change) (given : Option String) (s : r.State) (d : Directory)
      (accounts : Session (Option Local))
      → IsDone (matching r codec sessions serializer token_timeout crypt change given s d accounts)
      → (new : String) × (given ≡ some new)
        × ((new == "") ≡ false)
        × (change.verify_password ≡ some new)
        × Accepted change new s d accounts
            (matching r codec sessions serializer token_timeout crypt change given s d accounts)
  unfolding matching
  matching-Accepted change none s d accounts = λ (id, uid, username, h). absurd (cc)
  matching-Accepted change (some new) s d accounts =
      if_cases
        (λ (ended : Ended r codec sessions serializer token_timeout crypt).
          IsDone ended
          → (n : String) × (some new ≡ some n)
            × ((n == "") ≡ false)
            × (change.verify_password ≡ some n)
            × Accepted change n s d accounts ended)
        (new == "" || not (change.verify_password == some new)) _ _
        (λ differs (id, uid, username, h). absurd (cc))
        (λ same done. (
          new,
          refl,
          ground arith,
          (option_beq_iff _ _).0 (not-false _ (ground arith)),
          for_account-Accepted change new accounts.now s d accounts refl done,
        ))

  -- A password that is changed with status 200 is given twice, has three kinds of characters at least,
  -- and comes with the old one or with a token that is confirmed; the account that is committed has the
  -- hash of it, and need not change it again.
  pub change_password-Accepted :
      (change : Change) (s : r.State) (d : Directory) (accounts : Session (Option Local))
      → IsDone (change_password r codec sessions serializer token_timeout crypt change s d accounts)
      → (new : String) × (change.new_password ≡ some new)
        × ((new == "") ≡ false)
        × (change.verify_password ≡ some new)
        × Accepted change new s d accounts
            (change_password r codec sessions serializer token_timeout crypt change s d accounts)
  unfolding change_password
  change_password-Accepted change s d accounts =
      matching-Accepted change change.new_password s d accounts

  login_renewed :
      (change : Change) (new username : String) (a : Local) (by_identity by_name : String → Lookup)
      → (new == "") ≡ false
      → account_of by_identity by_name username
        ≡ one (renewed r codec sessions serializer token_timeout crypt change new a)
      → local_login crypt by_identity by_name username (some new)
        ≡ ok (known (record a.account { password_must_change = false }))
  unfolding local_login by_lookup by_password by_verify verified
  login_renewed change new username a by_identity by_name long found =
      (rw found
        (rw (crypt.hash_some change.salt new) (rw long (rw (crypt.verify-hash change.salt new)))))

  -- After a change with status 200, a login with the new password is accepted, and the account need not
  -- change its password, under every user name for which the login's query, by the identity of the person
  -- for a name with @ and by the name of the account otherwise, finds the account that was committed.
  pub local_login-change_password :
      (change : Change) (s : r.State) (d : Directory) (accounts : Session (Option Local))
      (new username : String) (by_identity by_name : String → Lookup) (a : Local)
      → IsDone (change_password r codec sessions serializer token_timeout crypt change s d accounts)
      → change.new_password ≡ some new
      → (change_password r codec sessions serializer token_timeout crypt change s d
          accounts).accounts.saved
        ≡ some a
      → account_of by_identity by_name username ≡ one a
      → (local_login crypt by_identity by_name username (some new) ≡ ok (known a.account))
        × (a.account.password_must_change ≡ false)
  local_login-change_password change s d accounts new username by_identity by_name a done given
        saved found =
      let (chosen, given', long, twice, accepted) =
        change_password-Accepted change s d accounts done in
      let (before, there, strong, proved, stored) = accepted in
      let same : chosen ≡ new = cc (given, given') in
      let kept : renewed r codec sessions serializer token_timeout crypt change chosen before ≡ a =
        cc (stored, saved) in
      (
        subst
            (λ (n : String).
              local_login crypt by_identity by_name username (some n) ≡ ok (known a.account))
            same
            (login_renewed change chosen username before by_identity by_name long
                (found ∙ ap one (sym kept))
              ∙ ap (λ (b : Local). ok (known b.account)) kept),
        sym (ap (λ (b : Local). b.account.password_must_change) kept),
      )
