-- ===== src/Auth/Login/Opened.antt =====
-- apicrud/session_auth.py, SessionAuth.account_login: who gets a session.
use apicrud.Prelude.{
  ℕ, Bool, true, false, Option, none, some, String, List, ◌≡◌, ◌⊎◌, inl, inr, refl, sym, ◌∙◌,
  if◌then◌else◌, text_eq, option_eq, if_cases, Bool-cases,
}
use apicrud.Python.Result.{Result, ok, err}
use apicrud.Python.PySet.{contains}
use apicrud.Redis.{Redis}
use apicrud.Access.{AccessControl}
use apicrud.Session.{Content, Login, Codec, Config, content_of, create}
use apicrud.Metrics.{Metrics}
use apicrud.Auth.{AuthConfig, Account}
use apicrud.Auth.Roles.{
  Situation, Answer, is_direct, totp_bypass, choose_roles, login_of, answer_of, with_session,
  with_roles, login_accepted,
}
use apicrud.Auth.Login.Known.{KnownBy, found-KnownBy}
use apicrud.Auth.Login.Settle.{same_session, refused-session, settle_ok, settle-refuse}
use apicrud.Auth.Login.{
  Verdict, known, rejected, Providers, Attempt, Reply, refuse, items_of, Tried, found, unknown,
  failed, try_items, unpacked, situation, accept, settle, settle_tried, settle_totp, with_otp,
  identify_by, is_second, identify, unless_locked, attempted, account_login,
}

module _ {B : Type 0} (r : Redis B) (codec : Codec B) (sha1 : String → String) (sessions : Config)
    (metrics : Metrics) (config : AuthConfig) (p : Providers r.State) where
  unpacked-answer :
      (method : Option String) (content : Content) (stored : Result Bool) (reply : Reply)
      → unpacked r codec sha1 sessions metrics config p
          (answer_of r codec sessions metrics method content stored)
        ≡ ok reply
      → reply.session ≡ some content
  unfolding unpacked
  unpacked-answer method content (err e) reply = λ h. absurd (cc)
  unpacked-answer method content (ok b) reply =
      if_cases
        (λ (answer : Answer).
          unpacked r codec sha1 sessions metrics config p (ok answer) ≡ ok reply
          → reply.session ≡ some content)
        (is_direct method) _ _ (λ t h. sym (same_session h)) (λ f h. absurd (cc))

  session-unpacked :
      (at : Situation) (roles : List String) (created : Option Content) (s : r.State)
      (reply : Reply)
      → unpacked r codec sha1 sessions metrics config p
          (with_session r codec sessions metrics at roles created s).1
        ≡ ok reply
      → reply.session ≡ created
  unfolding with_session unpacked
  session-unpacked at roles none s reply = λ h. absurd (cc)
  session-unpacked at roles (some content) s reply =
      elim (Bool-cases (contains "pendingtotp" roles)) [
        | inl waits ↦ rw waits (unpacked-answer at.method content (ok true) reply)
        | inr done ↦ rw done (unpacked-answer at.method content _ reply)
      ]

  created_if :
      (stored : Bool) (content given : Content)
      → (if stored then some content else none) ≡ some given
      → given ≡ content
  created_if true content given h = cc
  created_if false content given h = absurd (cc)

  create-content :
      (up : Bool) (l : Login) (s : r.State) (given : Content)
      → (create r codec sessions up l s).1 ≡ some given
      → given ≡ content_of sessions l
  unfolding create
  create-content up l s given =
      if_cases
        (λ (made : r.State × Option Content). made.1 ≡ some given → given ≡ content_of sessions l)
        up _ _ (λ t. created_if _ (content_of sessions l) given) (λ f h. absurd (cc))

  module _ (acc : AccessControl) (a : Attempt) where
    abbrev pub at_of : Option String → Account → Situation
    at_of method account = situation r codec sha1 sessions metrics config p acc a method account

    roles_session :
        (account : Account) (method : Option String) (chosen : Result (List String × ℕ))
        (s : r.State) (reply : Reply) (content : Content)
        → unpacked r codec sha1 sessions metrics config p
            (with_roles r codec sessions metrics a.up account
              (at_of method account)
              a.fresh
              chosen
              s).1
          ≡ ok reply
        → reply.session ≡ some content
        → (roles : List String) × (duration : ℕ) × (chosen ≡ ok (roles, duration))
          × (content
              ≡ content_of sessions
                  (login_of account (at_of method account) roles duration a.fresh))
    unfolding with_roles unpacked
    roles_session account method (err e) s reply content h given = absurd (cc)
    roles_session account method (ok (roles, duration)) s reply content h given =
        let l = login_of account (at_of method account) roles duration a.fresh in
        let (s', created) = create r codec sessions a.up l s in
        (
          roles,
          duration,
          refl,
          create-content a.up l s content
              (sym (session-unpacked (at_of method account) roles _ _ reply h) ∙ given),
        )

    -- a provider has accepted the credentials as those of the account, in a state that it may have
    -- changed: the one for one-time passwords, where the second factor is asked for, or else the one
    -- that the method names
    abbrev pub IsVouched : r.State → r.State → Account → Option String → Type 0
    IsVouched s s' account method =
        ((is_second r codec sha1 sessions metrics config p acc a ≡ true)
          × (a.has_otp ≡ true)
          × (p.totp s ≡ (s', ok (known account)))
          × (method ≡ acc.auth_method))
        ⊎ ((is_second r codec sha1 sessions metrics config p acc a ≡ false)
            × (s' ≡ s)
            × KnownBy p account method)

    -- the content of a session is that of a new one for such an account, with the roles and the
    -- duration that login_accepted chooses
    pub record IsOpened (s : r.State) (content : Content) : Type 0 where
      pub account : Account
      pub method : Option String
      pub roles : List String
      pub duration : ℕ
      pub state : r.State
      pub vouched : IsVouched s state account method
      pub chosen :
          choose_roles config account
            (at_of method account)
            (totp_bypass r codec a.up state account.uid a.cookie)
          ≡ ok (roles, duration)
      pub made :
          content
          ≡ content_of sessions (login_of account (at_of method account) roles duration a.fresh)

    abbrev Opens : r.State → r.State × Result Reply → Type 0
    Opens s ended =
        (reply : Reply) (content : Content)
        → ended.1 ≡ ok reply
        → reply.session ≡ some content
        → IsOpened s content

    accept-Opens :
        (s s' : r.State) (label : Option String) (account : Account) (method : Option String)
        → IsVouched s s' account method
        → Opens s (
            settle r codec sha1 sessions metrics config p a label
              (accept r codec sha1 sessions metrics config p acc a method account s'))
    unfolding accept login_accepted
    accept-Opens s s' label account method vouched reply content h given =
        let ended = settle_ok r codec sha1 sessions metrics config p a label _ reply h in
        let (roles, duration, chosen, made) =
          roles_session account method _ s' reply content ended given in
        record {
          account = account;
          method = method;
          roles = roles;
          duration = duration;
          state = s';
          vouched = vouched;
          chosen = chosen;
          made = made;
        }

    refuse-Opens :
        (s s' : r.State) (label : Option String) (code : ℕ)
        → Opens s (settle r codec sha1 sessions metrics config p a label (s', ok (refuse code)))
    refuse-Opens s s' label code reply content h given =
        let nothing =
          settle-refuse r codec sha1 sessions metrics config p a label code s' reply h in
        absurd (cc)

    tried-Opens :
        (s : r.State) (tried : Tried)
        → is_second r codec sha1 sessions metrics config p acc a ≡ false
        → ((item : String) (account : Account)
            → tried ≡ found item account
            → KnownBy p account (some item))
        → Opens s (settle_tried r codec sha1 sessions metrics config p acc a tried s)
    unfolding settle_tried
    tried-Opens s (failed e) first known_by = λ reply content h given. absurd (cc)
    tried-Opens s (unknown status) first known_by = refuse-Opens s s a.method status
    tried-Opens s (found item account) first known_by =
        accept-Opens s s (some item) account (some item)
          (inr (first, refl, known_by item account refl))

    totp-Opens :
        (s : r.State) (verdict : r.State × Result Verdict)
        → is_second r codec sha1 sessions metrics config p acc a ≡ true
        → a.has_otp ≡ true
        → p.totp s ≡ verdict
        → Opens s (settle_totp r codec sha1 sessions metrics config p acc a verdict)
    unfolding settle_totp
    totp-Opens s (s', err e) second otp by = λ reply content h given. absurd (cc)
    totp-Opens s (s', ok (rejected code)) second otp by = refuse-Opens s s' a.method code
    totp-Opens s (s', ok (known account)) second otp by =
        accept-Opens s s' a.method account acc.auth_method (inl (second, otp, by, refl))

    plain-Opens : (s s' : r.State) (code : ℕ) → Opens s (s', ok (refuse code))
    plain-Opens s s' code reply content h given =
        let nothing = refused-session code h in absurd (cc)

    otp-Opens :
        (s : r.State) (otp : Bool)
        → is_second r codec sha1 sessions metrics config p acc a ≡ true
        → a.has_otp ≡ otp
        → Opens s (with_otp r codec sha1 sessions metrics config p otp acc a s)
    unfolding with_otp
    otp-Opens s true second given = totp-Opens s (p.totp s) second given refl
    otp-Opens s false second given = refuse-Opens s s a.method 403

    identify_by-Opens :
        (s : r.State) (second oauth here : Bool)
        → is_second r codec sha1 sessions metrics config p acc a ≡ second
        → Opens s (identify_by r codec sha1 sessions metrics config p second oauth here acc a s)
    unfolding identify_by
    identify_by-Opens s true oauth here is = otp-Opens s a.has_otp is refl
    identify_by-Opens s false true here is = refuse-Opens s s a.method p.oauth2
    identify_by-Opens s false false true is =
        tried-Opens s (try_items p (items_of config a.method) 403) is
          (found-KnownBy p (items_of config a.method) 403)
    identify_by-Opens s false false false is = plain-Opens s s 500

    locked-Opens :
        (limited : r.State × Result Bool) (reply : Reply) (content : Content)
        → (unless_locked r codec sha1 sessions metrics config p acc a limited).1 ≡ ok reply
        → reply.session ≡ some content
        → (limited.1 ≡ ok false) × IsOpened limited.0 content
    unfolding unless_locked identify
    locked-Opens (s, err e) reply content h given = absurd (cc)
    locked-Opens (s, ok true) reply content h given =
        let nothing = refused-session 403 h in absurd (cc)
    locked-Opens (s, ok false) reply content h given =
        (refl, identify_by-Opens s _ _ _ refl reply content h given)

    -- A login opens a session only within the limit of attempts, and for an account that a provider has
    -- accepted the credentials as those of: the provider of one-time passwords, where the caller's
    -- session waits for the second factor (or an API key comes with a one-time password), and the
    -- request has a one-time password; or else the local or the LDAP provider, whichever the session
    -- names as its method. The session has the account's id, uid and identity, the random values of the
    -- call, and the roles that login_accepted chooses for the account.
    pub account_login-IsOpened :
        (s : r.State) (reply : Reply) (content : Content)
        → (account_login r codec sha1 sessions metrics config p acc a s).1 ≡ ok reply
        → reply.session ≡ some content
        → ((attempted r codec sha1 sessions metrics config p a s).1 ≡ ok false)
          × IsOpened (attempted r codec sha1 sessions metrics config p a s).0 content
    unfolding account_login
    account_login-IsOpened s = locked-Opens (attempted r codec sha1 sessions metrics config p a s)
