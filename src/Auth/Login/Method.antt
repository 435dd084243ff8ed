-- ===== src/Auth/Login/Method.antt =====
-- apicrud/session_auth.py, SessionAuth.account_login: a named method.
use Prim.Native.String.{String}
use text.Mathlib.TextLemmas.{nil≢cons, tail-eq_of_cons-eq}
use apicrud.Prelude.{
  ℕ, Bool, true, false, none, some, ◌≡◌, inl, inr, refl, Char, ◌==◌, text_eq, number_eq, eq_iff,
  Bool-cases,
}
use apicrud.Python.Result.{Result, ok, err}
use apicrud.Python.PySet.{contains}
use apicrud.Redis.{Redis}
use apicrud.Access.{AccessControl}
use apicrud.Session.{Codec, Config}
use apicrud.Metrics.{Metrics}
use apicrud.Auth.{AuthConfig}
use apicrud.Auth.Roles.{is_pending}
use apicrud.Auth.Login.Settle.{refused-session, settle-refuse}
use apicrud.Auth.Login.{
  Providers, Attempt, Reply, letters, items_of, unknown, verdict_of, try_items, settle_tried,
  identify_by, is_second, has_method, identify, unless_locked, account_login,
}

letter-other :
    (c d e : Char) (s : String) → (String.◌∷◌ c "" == String.◌∷◌ d (String.◌∷◌ e s)) ≡ false
letter-other c d e s = elim (Bool-cases (String.◌∷◌ c "" == String.◌∷◌ d (String.◌∷◌ e s))) [
  | inl same ↦ absurd (nil≢cons (tail-eq_of_cons-eq ((eq_iff _ _).0 same)))
  | inr other ↦ other
]

verdict_of_letter :
    {S : Type 0} (p : Providers S) (c : Char) → verdict_of p (String.◌∷◌ c "") ≡ none
verdict_of_letter p c = rw (letter-other c "l" "o" "cal") (rw (letter-other c "l" "d" "ap"))

try_letters :
    {S : Type 0} (p : Providers S) (s : String) (status : ℕ)
    → try_items p (letters s) status ≡ unknown status
unfolding try_items letters
try_letters p String.[] status = refl
try_letters p (String.◌∷◌ c s) status = rw (verdict_of_letter p c) (try_letters p s status)

module _ {B : Type 0} (r : Redis B) (codec : Codec B) (sha1 : String → String) (sessions : Config)
    (metrics : Metrics) (config : AuthConfig) (p : Providers r.State) (acc : AccessControl)
    (a : Attempt) where
  abbrev NoSession : r.State × Result Reply → Type 0
  NoSession ended = (reply : Reply) → ended.1 ≡ ok reply → reply.session ≡ none

  letters-NoSession :
      (here : Bool) (s : r.State) (method : String)
      → items_of config a.method ≡ letters method
      → NoSession (identify_by r codec sha1 sessions metrics config p false false here acc a s)
  unfolding identify_by settle_tried
  letters-NoSession false s method items reply = λ h. refused-session 500 h
  letters-NoSession true s method items reply =
      rw (items, try_letters p method 403)
        (settle-refuse r codec sha1 sessions metrics config p a a.method 403 s reply)

  locked-NoSession :
      (limited : r.State × Result Bool) (method : String)
      → items_of config a.method ≡ letters method
      → is_second r codec sha1 sessions metrics config p acc a ≡ false
      → has_method config.auth_params a.method ≡ false
      → NoSession (unless_locked r codec sha1 sessions metrics config p acc a limited)
  unfolding unless_locked identify
  locked-NoSession (s, err e) method items first outside reply = λ h. absurd (cc)
  locked-NoSession (s, ok true) method items first outside reply = λ h. refused-session 403 h
  locked-NoSession (s, ok false) method items first outside reply =
      rw (first, outside) (letters-NoSession _ s method items reply)

  -- A login that names its method, such as `local`, never gives a session, whatever the providers say,
  -- unless the method is one of OAuth2, the caller's session waits for a second factor or the request
  -- has a one-time password: the loop runs over the characters of the name.
  pub named_method_refused :
      (s : r.State) (method : String) (reply : Reply)
      → a.method ≡ some method
      → (method == "") ≡ false
      → contains method config.auth_params ≡ false
      → is_pending acc ≡ false
      → a.has_otp ≡ false
      → (account_login r codec sha1 sessions metrics config p acc a s).1 ≡ ok reply
      → reply.session ≡ none
  unfolding account_login is_second items_of
  named_method_refused s method reply named nonempty outside settled no_otp =
      locked-NoSession _ method (rw named (rw nonempty)) (rw (settled, no_otp))
        (rw (named, outside)) reply
