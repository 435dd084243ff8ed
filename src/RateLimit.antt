-- ===== src/RateLimit.antt =====
-- apicrud/ratelimit.py: class RateLimit. The proofs are in the modules below.
pub mod Keys
pub mod Interval
pub mod Ways
use apicrud.Prelude.{
  ℕ, ◌+◌, ◌-◌, ◌*◌, ◌/◌, ◌%◌, Bool, true, false, not, Option, none, some, String, ◌⧺◌, List, [],
  ◌∷◌, if◌then◌else◌, ◌==◌, number_eq, text_eq,
}
use apicrud.Prelude.Int.{ℤ, pos, ltb_ℤ}
use apicrud.Python.Result.{Exn, Result, ok, err, ◌>>=◌}
use apicrud.Python.Text.{truthy, show, split}
use apicrud.Python.Number.{decimal}
use apicrud.Redis.{Redis, Value, text, sealed, int, real, get}
use apicrud.Session.{Codec, get_arg}
use apicrud.Grants.{Limit, undefined, number, word, is_set}

-- the settings that the class reads; the interval is not 0
pub record Limiter : Type 0 where
  pub enable : Bool
  pub interval : ℕ

-- the headers that it reads
pub record Caller : Type 0 where
  pub apikey : Option String
  pub username : Option String

unfoldable pub interval_of : ℕ → ℕ → ℕ
interval_of interval now = now % (interval * 2) / interval

-- 'rate:%s:%s:%d' % (service, uid, curr)
unfoldable pub rate_key : String → Option String → ℕ → String
rate_key service uid curr = "rate:" ⧺ (service ⧺ (":" ⧺ (show uid ⧺ (":" ⧺ decimal curr))))

-- limit and not calls or int(calls.decode()) < limit
unfoldable pub within : {B : Type 0} → Limit → Option (Value B) → Result Bool
within limit none = if is_set limit then ok true else err Exn.attribute_error
within (number n) (some (int z)) = ok (ltb_ℤ z n)
within undefined (some (int z)) = err Exn.type_error
within (word w) (some (int z)) = err Exn.type_error
within limit (some (sealed b)) = err Exn.value_error
within limit (some (real x)) = err Exn.value_error
within limit (some (text t)) =
    if t == "" then (if is_set limit then ok true else err Exn.value_error) else err Exn.value_error

-- the prefix and the secret of an API key: `split` in two parts
unfoldable pub key_parts : List String → Option (String × String)
key_parts [] = none
key_parts (prefix ∷ []) = none
key_parts (prefix ∷ secret ∷ []) = some (prefix, secret)
key_parts (prefix ∷ secret ∷ more ∷ rest) = none

-- `uid or ...`
unfoldable pub or_uid : Option String → Option String → Option String
or_uid uid other = if truthy uid then uid else other

-- what `call` is called with: `limit` is the argument, and `granted` what Grants returns
pub record Call : Type 0 where
  pub limit : Limit
  pub service : String
  pub uid : Option String
  pub caller : Caller
  pub now : ℕ
  pub up : Bool
  pub piped : Bool

-- `sha1` is the first eight characters of the base-64 text of a SHA-1 digest
module _ {B : Type 0} (r : Redis B) (codec : Codec B) (sha1 : String → String) where
  unfoldable pub key_uid : Bool → r.State → Option (String × String) → Result (Option String)
  key_uid up s none = ok none
  key_uid up s (some (prefix, secret)) = get_arg r codec up s none (sha1 secret) "sub" (some prefix)

  unfoldable pub get_request_uid : Bool → r.State → Caller → Result (Option String)
  get_request_uid up s caller = elim caller.apikey [
    | some header ↦ key_uid up s (key_parts (split "." header))
    | none ↦ ok caller.username
  ]

module _ {B : Type 0} (r : Redis B) where
  -- INCR, EXPIRE and DEL in one pipeline
  unfoldable pub count_call : Limiter → String → String → r.State → r.State
  count_call limiter key altkey s =
      r.delete (r.expire (r.incr_by s key (pos 1)) key (limiter.interval - 1)) altkey

  -- `piped` says whether redis answers the pipeline: every exception of it is caught
  unfoldable pub counted_call :
      Limiter → Bool → String → String → Result Bool → r.State → r.State × Result Bool
  counted_call limiter piped key altkey (err e) s = (s, err e)
  counted_call limiter piped key altkey (ok false) s = (s, ok true)
  counted_call limiter piped key altkey (ok true) s =
      (if piped then count_call limiter key altkey s else s, ok false)

  -- the part of `call` behind the look at the user, for a limit
  unfoldable pub limited :
      Limiter
      → (up piped : Bool) → ℕ
      → Limit
      → String
      → Option String
      → r.State
      → r.State × Result Bool
  limited limiter up piped now limit service uid s =
      let curr = interval_of limiter.interval now in
      let key = rate_key service uid curr in
      let altkey = rate_key service uid (if curr == 0 then 1 else 0) in
      if up
      then counted_call limiter piped key altkey (within limit (get r s key)) s
      else (s, ok false)

  unfoldable pub reset : String → Option String → r.State → r.State
  reset service uid s = r.delete (r.delete s (rate_key service uid 0)) (rate_key service uid 1)

module _ {B : Type 0} (r : Redis B) (codec : Codec B) (sha1 : String → String) where
  unfoldable pub call_for :
      Limiter → Call → (String → Limit) → Result (Option String) → r.State → r.State × Result Bool
  call_for limiter c granted (err e) s = (s, err e)
  call_for limiter c granted (ok none) s = (s, ok false)
  call_for limiter c granted (ok (some uid)) s =
      let limit = if is_set c.limit then c.limit else granted uid in
      if uid == ""
      then (s, ok false)
      else limited r limiter c.up c.piped c.now limit c.service (some uid) s

  unfoldable pub call : Limiter → Call → (String → Limit) → r.State → r.State × Result Bool
  call limiter c granted s =
      let uid = (if truthy c.uid then ok c.uid else get_request_uid r codec sha1 c.up s c.caller) in
      if limiter.enable then call_for limiter c granted uid s else (s, ok false)
