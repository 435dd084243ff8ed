-- ===== src/Totp/Login/Replay.antt =====
-- apicrud/auth/totp_func.py, login: a one-time password that is given again.
use Prim.Native.String.{String, count}
use package.text.Mathlib.TextLemmas.{cons-append}
use apicrud.Prelude.{
  ℕ, ◌+◌, ◌<◌, Bool, true, false, not, Option, none, some, ◌≡◌, ◌≢◌, ◌⊎◌, subst, refl, ◌∙◌, arith,
  if_cases, ◌==◌, text_eq, number_eq, eq_refl, inl, inr, Option-cases, lt→ltb,
}
use apicrud.Python.Result.{Result, ok, err, ◌>>=◌}
use apicrud.Python.Text.{show, truthy, beq_other_start}
use apicrud.Redis.{Redis, text, get, set_nx_free, set_nx_taken}
use apicrud.Access.{AccessControl}
use apicrud.Session.{Content, Codec, Config, Login, create, session_key, token_of}
use apicrud.Session.Laws.{later-create}
use apicrud.Metrics.{Metrics}
use apicrud.Aes.{Cipher}
use apicrud.Auth.Roles.{Fresh}
use apicrud.Totp.{Guarded, Hashing, TotpConfig}
use apicrud.Totp.Login.{
  totp_key, Ended, refused, accepted, with_cookie, give_cookie, unless_replayed, block_replay,
  by_code, wrong_otp, by_totp, login_account, login_found, login, cookie_login, spend_code,
}

-- the end is no success
abbrev IsRefused : Result Ended → Type 0
IsRefused (err e) = Unit {0}
IsRefused (ok (refused code)) = Unit {0}
IsRefused (ok (accepted header)) = ⊥

-- the key of a session is no key of a one-time password
session_key-ne-totp_key :
    (uid : Option String) (token : String) (key_id account_id : Option String) (otp : String)
    → (session_key uid token key_id == totp_key account_id otp) ≡ false
unfolding session_key totp_key
session_key-ne-totp_key uid token key_id account_id otp =
    rw (cons-append "s" "es:" _, cons-append "t" "otp:" _) (beq_other_start "s" "t" _ _ refl)

module _ {B : Type 0} (r : Redis B) (codec : Codec B) (sessions : Config) (metrics : Metrics)
    (cipher : Cipher) (h : Hashing) (config : TotpConfig) (acc : AccessControl) (otp : String) where
  -- the one-time password is blocked for some more seconds
  abbrev Blocked : r.State → ℕ → Type 0
  Blocked s rest =
      (n : ℕ) → n < rest → r.get_later s n (totp_key acc.account_id otp) ≡ some (text "")

  create-Blocked :
      (l : Login) (s : r.State) (rest : ℕ)
      → Blocked s rest
      → Blocked (create r codec sessions true l s).0 rest
  create-Blocked l s rest held n n< =
      later-create r codec sessions l s n (totp_key acc.account_id otp)
        (session_key-ne-totp_key l.uid (token_of l) l.key_id acc.account_id otp)
      ∙ held n n<

  -- the end is no success, or the one-time password is blocked
  abbrev Blocks : r.State × Guarded × Result Ended → Type 0
  Blocks logged = IsRefused logged.2 ⊎ Blocked logged.0 60

  with_cookie-Blocks :
      (g : Guarded) (made : r.State × Option Content)
      → Blocked made.0 60
      → Blocks (with_cookie r codec sessions metrics cipher h config acc g made)
  unfolding with_cookie
  with_cookie-Blocks g (s, none) held = inl tt
  with_cookie-Blocks g (s, some session) held = inr held

  give_cookie-Blocks :
      (g : Guarded) (fresh : Fresh) (s : r.State)
      → Blocked s 60
      → Blocks (give_cookie r codec sessions metrics cipher h config acc g fresh s)
  unfolding give_cookie
  give_cookie-Blocks g fresh s held =
      if_cases Blocks (config.cookie_limit == 0) _ _ (λ none_given. inr held)
        (λ given.
          with_cookie-Blocks g _ (create-Blocked (cookie_login config acc g fresh) s 60 held))

  put-Blocked :
      (s : r.State) → Blocked (r.put s (totp_key acc.account_id otp) (text "") (some 60)) 60
  put-Blocked s n n< =
      r.later-put s _ (text "") (some 60) n _
      ∙ rw (eq_refl (totp_key acc.account_id otp)) (rw (lt→ltb n 60 n<))

  block_replay-Blocks :
      (up : Bool) (g : Guarded) (fresh : Fresh) (s : r.State)
      → Blocks (block_replay r codec sessions metrics cipher h config up acc otp g fresh s)
  unfolding block_replay unless_replayed
  block_replay-Blocks false g fresh s = inl tt
  block_replay-Blocks true g fresh s = elim (Option-cases (get r s (totp_key acc.account_id otp))) [
    | inl free ↦
        rw (set_nx_free r s (totp_key acc.account_id otp) (text "") (some 60) free)
          (give_cookie-Blocks g fresh _ (put-Blocked s))
    | inr (w, taken) ↦
        rw (set_nx_taken r s (totp_key acc.account_id otp) (text "") (some 60) taken) (inl tt)
  ]

  refused_then : (stored : Result Bool) → IsRefused (stored >>= (λ done. ok (refused 403)))
  refused_then (err e) = tt
  refused_then (ok done) = tt

  -- The rest of a login, for any predicate that holds of what is refused and of `block_replay`.
  module _ (P : r.State × Guarded × Result Ended → Type 0) (up : Bool) (fresh : Fresh) (s : r.State)
      (on_refused : (logged : r.State × Guarded × Result Ended) → IsRefused logged.2 → P logged)
      (on_block : (g : Guarded)
        → P (block_replay r codec sessions metrics cipher h config up acc otp g fresh s)) where
    by_code_cases :
        (g : Guarded) (spent : Result (Option Guarded))
        → P (by_code r codec sessions metrics cipher h config up acc otp g fresh spent s)
    unfolding by_code
    by_code_cases g (err e) = on_refused _ tt
    by_code_cases g (ok none) = on_refused _ tt
    by_code_cases g (ok (some g')) = on_block g'

    login_account_cases :
        (g : Guarded)
        → P (login_account r codec sessions metrics cipher h config up acc otp g fresh s)
    unfolding login_account by_totp wrong_otp
    login_account_cases g =
        if_cases P (count otp == 8) _ _
          (λ short. by_code_cases g (spend_code cipher h otp g g.backup_codes))
          (λ long.
            if_cases P (not (truthy g.totp_secret)) _ _ (λ without. on_refused _ tt)
              (λ has.
                if_cases P (not (h.verify (show g.totp_secret) otp)) _ _
                  (λ wrong. on_refused _ (refused_then _)) (λ right. on_block g)))

  -- what a login leaves where the one-time password is blocked
  taken_IsRefused :
      (up : Bool) (fresh : Fresh) (s : r.State)
      → get r s (totp_key acc.account_id otp) ≡ some (text "")
      → (g : Guarded)
      → IsRefused (block_replay r codec sessions metrics cipher h config up acc otp g fresh s).2
  unfolding block_replay unless_replayed
  taken_IsRefused false fresh s taken g = tt
  taken_IsRefused true fresh s taken g =
      rw (set_nx_taken r s (totp_key acc.account_id otp) (text "") (some 60) taken) tt

  abbrev BlocksAll : r.State × Option Guarded × Result Ended → Type 0
  BlocksAll logged = IsRefused logged.2 ⊎ Blocked logged.0 60

  login_found-Blocks :
      (up : Bool) (fresh : Fresh) (found : Option Guarded) (s : r.State)
      → BlocksAll (login_found r codec sessions metrics cipher h config up acc otp fresh found s)
  unfolding login_found
  login_found-Blocks up fresh none s = inl tt
  login_found-Blocks up fresh (some g) s =
      login_account_cases Blocks up fresh s (λ logged none_given. inl none_given)
        (λ g'. block_replay-Blocks up g' fresh s) g

  login_found_taken :
      (up : Bool) (fresh : Fresh) (found : Option Guarded) (s : r.State)
      → get r s (totp_key acc.account_id otp) ≡ some (text "")
      → IsRefused (login_found r codec sessions metrics cipher h config up acc otp fresh found s).2
  unfolding login_found
  login_found_taken up fresh none s taken = tt
  login_found_taken up fresh (some g) s taken =
      login_account_cases (λ logged. IsRefused logged.2) up fresh s
        (λ logged refused_so. refused_so) (taken_IsRefused up fresh s taken) g

  accepted-Blocked :
      (logged : r.State × Option Guarded × Result Ended) (header : Option String)
      → BlocksAll logged
      → logged.2 ≡ ok (accepted header)
      → Blocked logged.0 60
  accepted-Blocked logged header (inr held) done = held
  accepted-Blocked logged header (inl refused_so) done = absurd (subst IsRefused done refused_so)

  not_accepted :
      (ended : Result Ended) (header : Option String)
      → IsRefused ended
      → ended ≢ ok (accepted header)
  not_accepted ended header refused_so done = absurd (subst IsRefused done refused_so)

  -- Within the 60 seconds after a login that a one-time password or a backup code has completed, no
  -- login of the same session's account with the same password or code succeeds, whatever the accounts
  -- in the database are by then, unless another command comes in.
  pub login_replayed :
      (by_name by_id by_name' by_id' : Option String → Option Guarded) (up up' : Bool)
      (username username' : String) (fresh fresh' : Fresh) (s : r.State)
      (header header' : Option String) (n : ℕ)
      → n < 60
      → (login r codec sessions metrics cipher h config by_name by_id up acc username otp fresh s).2
        ≡ ok (accepted header)
      → (login r codec sessions metrics cipher h config by_name' by_id' up' acc username' otp fresh'
          (r.tick
            (login r codec sessions metrics cipher h config by_name by_id up acc username otp fresh
              s).0
            n)).2
        ≢ ok (accepted header')
  unfolding login
  login_replayed by_name by_id by_name' by_id' up up' username username' fresh fresh' s header
        header' n n< done =
      let held =
        accepted-Blocked
          (login r codec sessions metrics cipher h config by_name by_id up acc username otp fresh s)
          header (login_found-Blocks up fresh _ s) done in
      let key = totp_key acc.account_id otp in
      let same : n + 0 ≡ n = omega arith in
      not_accepted _ header'
        (login_found_taken up' fresh' _ _ (r.later-tick _ n 0 key ∙ rw same (held n n<)))
