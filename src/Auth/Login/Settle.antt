-- ===== src/Auth/Login/Settle.antt =====
-- apicrud/session_auth.py, SessionAuth.account_login: the end of a login keeps its answer, and a refused
-- login has no session.
use apicrud.Prelude.{
  ℕ, Bool, ◌||◌, Option, none, String, ◌≡◌, inl, inr, sym, ap, ◌==◌, number_eq, Bool-cases,
}
use apicrud.Python.Result.{Result, ok, err, ◌>>=◌}
use apicrud.Redis.{Redis}
use apicrud.Session.{Content, Codec, Config}
use apicrud.Metrics.{Metrics}
use apicrud.Auth.{AuthConfig}
use apicrud.Auth.Login.{Providers, Attempt, Reply, refuse, settle}

then_reply :
    (stored : Result Bool) (reply given : Reply)
    → (stored >>= (λ done. ok reply)) ≡ ok given
    → ◌≡◌ {A = Result Reply} (ok reply) (ok given)
then_reply (err e) reply given h = absurd (cc)
then_reply (ok done) reply given h = h

pub same_session :
    {given reply : Reply}
    → ◌≡◌ {A = Result Reply} (ok given) (ok reply)
    → given.session ≡ reply.session
same_session = ap session_of
  where
    session_of : Result Reply → Option Content
    session_of (err e) = none
    session_of (ok reply) = reply.session

pub refused-session :
    (code : ℕ) {reply : Reply}
    → ◌≡◌ {A = Result Reply} (ok (refuse code)) (ok reply)
    → reply.session ≡ none
refused-session code h = sym (same_session h)

module _ {B : Type 0} (r : Redis B) (codec : Codec B) (sha1 : String → String) (sessions : Config)
    (metrics : Metrics) (config : AuthConfig) (p : Providers r.State) (a : Attempt) where
  pub settle_ok :
      (method : Option String) (ended : r.State × Result Reply) (reply : Reply)
      → (settle r codec sha1 sessions metrics config p a method ended).1 ≡ ok reply
      → ended.1 ≡ ok reply
  unfolding settle
  settle_ok method (s, err e) reply = λ h. h
  settle_ok method (s, ok given) reply =
      elim (Bool-cases (given.code == 200 || given.code == 201)) [
        | inl accepted ↦ rw accepted (λ h. h)
        | inr other ↦ rw other (then_reply _ given reply)
      ]

  pub settle-refuse :
      (method : Option String) (code : ℕ) (s : r.State) (reply : Reply)
      → (settle r codec sha1 sessions metrics config p a method (s, ok (refuse code))).1 ≡ ok reply
      → reply.session ≡ none
  settle-refuse method code s reply h =
      refused-session code (settle_ok method (s, ok (refuse code)) reply h)
