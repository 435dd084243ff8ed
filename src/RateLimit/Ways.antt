-- ===== src/RateLimit/Ways.antt =====
-- apicrud/ratelimit.py, RateLimit: the other ways in which a call ends, and reset.
use apicrud.Prelude.{
  ℕ, Bool, true, false, Option, none, some, String, ◌≡◌, ◌∙◌, if◌then◌else◌, ◌==◌, text_eq,
  number_eq, eq_refl, Bool-cases, inl, inr,
}
use apicrud.Python.Result.{Exn, Result, ok, err}
use apicrud.Python.Text.{truthy}
use apicrud.Redis.{Redis, get}
use apicrud.Session.{Codec}
use apicrud.Grants.{Limit, is_set}
use apicrud.RateLimit.{
  Limiter, Call, interval_of, rate_key, within, count_call, counted_call, limited, call_for,
  get_request_uid, call, reset,
}

module _ {B : Type 0} (r : Redis B) where
  count_call_other :
      (limiter : Limiter) (key altkey : String) (s : r.State)
      → get r (count_call r limiter key altkey s) altkey ≡ none
  unfolding count_call
  count_call_other limiter key altkey s = r.later-delete _ altkey 0 altkey ∙ rw (eq_refl altkey)

  counted_cases :
      (limiter : Limiter) (key altkey : String) (test : Result Bool) (s : r.State)
      → (counted_call r limiter true key altkey test s).1 ≡ ok false
      → get r (counted_call r limiter true key altkey test s).0 altkey ≡ none
  unfolding counted_call
  counted_cases limiter key altkey (err e) s = λ h. cc
  counted_cases limiter key altkey (ok false) s = λ h. cc
  counted_cases limiter key altkey (ok true) s = λ h. count_call_other limiter key altkey s

  -- After a call that is let pass, the count of the other interval is gone, so that the next
  -- interval starts from nothing.
  pub limited_alternates :
      (limiter : Limiter) (now : ℕ) (limit : Limit) (service : String) (uid : Option String)
      (s : r.State)
      → (limited r limiter true true now limit service uid s).1 ≡ ok false
      → get r
          (limited r limiter true true now limit service uid s).0
          (rate_key service uid (if interval_of limiter.interval now == 0 then 1 else 0))
        ≡ none
  unfolding limited
  limited_alternates limiter now limit service uid s =
      counted_cases limiter (rate_key service uid (interval_of limiter.interval now))
        (rate_key service uid (if interval_of limiter.interval now == 0 then 1 else 0))
        (within limit (get r s (rate_key service uid (interval_of limiter.interval now)))) s

  -- After a reset of a service neither key of the user holds a count.
  pub get-reset :
      (service : String) (uid : Option String) (s : r.State)
      → (get r (reset r service uid s) (rate_key service uid 0) ≡ none)
        × (get r (reset r service uid s) (rate_key service uid 1) ≡ none)
  unfolding reset
  get-reset service uid s = (
    r.later-delete _ (rate_key service uid 1) 0 _
        ∙ elim (Bool-cases (rate_key service uid 1 == rate_key service uid 0)) [
          | inl same ↦ rw same
          | inr other ↦ rw other (
              r.later-delete _ (rate_key service uid 0) 0 _ ∙ rw (eq_refl (rate_key service uid 0)))
        ],
    r.later-delete _ (rate_key service uid 1) 0 _ ∙ rw (eq_refl (rate_key service uid 1)),
  )

module _ {B : Type 0} (r : Redis B) (codec : Codec B) (sha1 : String → String) (limiter : Limiter)
    (c : Call) (granted : String → Limit) (s : r.State) where
  -- A request without an API key and without a user's name is never limited, and never counted.
  pub call_anonymous :
      (truthy c.uid ≡ false)
      → c.caller ≡ record { apikey = none; username = none }
      → call r codec sha1 limiter c granted s ≡ (s, ok false)
  unfolding call call_for get_request_uid
  call_anonymous nobody no_header = elim (Bool-cases limiter.enable) [
    | inl on ↦ rw (on, nobody, no_header)
    | inr off ↦ rw off
  ]

  -- Where neither the caller nor the grants give a limit, the first call of an interval raises an
  -- AttributeError instead of passing.
  pub no_limit_raises :
      (uid : String)
      → limiter.enable ≡ true
      → c.uid ≡ some uid
      → (uid == "") ≡ false
      → c.up ≡ true
      → is_set c.limit ≡ false
      → is_set (granted uid) ≡ false
      → get r s (rate_key c.service (some uid) (interval_of limiter.interval c.now)) ≡ none
      → call r codec sha1 limiter c granted s ≡ (s, err Exn.attribute_error)
  unfolding call call_for truthy limited within counted_call
  no_limit_raises uid enabled user known there unset no_grant none_yet =
      rw (enabled, user) (rw (known, there) (rw unset (rw none_yet (rw known (rw no_grant)))))
