-- ===== src/RateLimit/Interval.antt =====
-- apicrud/ratelimit.py, RateLimit.call: the calls of one interval.
use apicrud.Prelude.{
  ℕ, zero, suc, ◌+◌, ◌-◌, ◌<◌, ◌≤◌, Bool, true, false, Option, none, some, String, List, [], ◌∷◌,
  ◌≡◌, refl, ◌∙◌, ap, subst, arith, if◌then◌else◌, ◌==◌, text_eq, number_eq, eq_refl, ltb,
}
use apicrud.Prelude.Int.{pos, ◌+ℤ◌}
use apicrud.Python.Result.{Result, ok}
use apicrud.Python.Text.{truthy}
use apicrud.Redis.{Redis, Value, int, get, counted, recount}
use apicrud.Session.{Codec}
use apicrud.Grants.{Limit, number, is_set}
use apicrud.RateLimit.{
  Limiter, Call, interval_of, rate_key, within, count_call, counted_call, limited, call_for, call,
}
use apicrud.RateLimit.Keys.{interval_of_lt, alt_key}

module _ {B : Type 0} (r : Redis B) (limiter : Limiter) where
  -- so many calls are counted, for so many seconds
  abbrev pub counter : ℕ → Option (Value B)
  counter zero = none
  counter (suc n) = some (int (pos (suc n)))

  abbrev Counts : String → r.State → ℕ → ℕ → Type 0
  Counts key s m rest = (n : ℕ) → n < rest → r.get_later s n key ≡ counter m

  counted-counter : (m : ℕ) → counted (counter m) ≡ some (pos m)
  counted-counter zero = refl
  counted-counter (suc m) = refl

  recount-counter : (m : ℕ) → recount (pos m +ℤ pos 1) (counter m) (counter m) ≡ counter (suc m)
  unfolding ◌+ℤ◌
  recount-counter zero = refl
  recount-counter (suc m) = ground arith

  count_call-Counts :
      (key altkey : String) (s : r.State) (m : ℕ)
      → (altkey == key) ≡ false
      → r.get_later s 0 key ≡ counter m
      → Counts key (count_call r limiter key altkey s) (suc m) (limiter.interval - 1)
  unfolding count_call
  count_call-Counts key altkey s m other now n n< =
      r.later-delete _ altkey n key
      ∙ rw other (
          r.later-expire (r.incr_by s key (pos 1)) key (limiter.interval - 1) n key
          ∙ rw (eq_refl key) (
              let e : ltb n (limiter.interval - 1) ≡ true = ground arith in
              rw e (
                r.later-incr_by s key (pos 1) (pos m) 0 key (ap counted now ∙ counted-counter m)
                ∙ rw (eq_refl key) (rw now (recount-counter m)))))

  within-counter :
      (m limit : ℕ) → 0 < limit → within (number (pos limit)) (counter m) ≡ ok (ltb m limit)
  unfolding within is_set
  within-counter zero limit h = ground arith
  within-counter (suc m) limit h = ground arith

  limited_counts :
      (limit m now : ℕ) (service : String) (uid : Option String) (s : r.State)
      → 0 < limit
      → get r s (rate_key service uid (interval_of limiter.interval now)) ≡ counter m
      → limited r limiter true true now (number (pos limit)) service uid s
        ≡ counted_call r limiter true
            (rate_key service uid (interval_of limiter.interval now))
            (rate_key service uid (if interval_of limiter.interval now == 0 then 1 else 0))
            (ok (ltb m limit))
            s
  unfolding limited
  limited_counts limit m now service uid s h found = rw found (rw (within-counter m limit h))

  module _ (codec : Codec B) (sha1 : String → String) (c : Call) (granted : String → Limit) where
    -- the answers of calls with so many seconds after each
    abbrev pub answers : List ℕ → ℕ → r.State → List (Result Bool)
    answers [] now s = []
    answers (gap ∷ gaps) now s =
        let (s', answer) = call r codec sha1 limiter (record c { now = now }) granted s in
        answer ∷ answers gaps (now + gap) (r.tick s' gap)

    abbrev pub seconds : List ℕ → ℕ
    seconds [] = 0
    seconds (gap ∷ gaps) = gap + seconds gaps

    call-limited :
        (now : ℕ) (s : r.State) (uid : String) (limit : ℕ)
        → limiter.enable ≡ true
        → c.uid ≡ some uid
        → (uid == "") ≡ false
        → c.limit ≡ number (pos limit)
        → 0 < limit
        → call r codec sha1 limiter (record c { now = now }) granted s
          ≡ limited r limiter c.up c.piped now (number (pos limit)) c.service (some uid) s
    unfolding call call_for truthy is_set
    call-limited now s uid limit enabled user known given h =
        rw (enabled, user) (rw (known, given) (ground arith))

    -- the first calls pass, and the others are told that the limit is exceeded
    abbrev pub allowed : ℕ → List ℕ → List (Result Bool)
    allowed left [] = []
    allowed zero (gap ∷ gaps) = ok true ∷ allowed zero gaps
    allowed (suc left) (gap ∷ gaps) = ok false ∷ allowed left gaps

    module _ (uid : String) (limit i : ℕ) (enabled : limiter.enable ≡ true)
        (user : c.uid ≡ some uid) (known : (uid == "") ≡ false)
        (given : c.limit ≡ number (pos limit)) (some_limit : 0 < limit)
        (there : (c.up ≡ true) × (c.piped ≡ true)) (bit : i < 2) where
      abbrev key : String
      key = rate_key c.service (some uid) i

      abbrev altkey : String
      altkey = rate_key c.service (some uid) (if i == 0 then 1 else 0)

      call_counts :
          (m now : ℕ) (s : r.State)
          → interval_of limiter.interval now ≡ i
          → get r s key ≡ counter m
          → call r codec sha1 limiter (record c { now = now }) granted s
            ≡ counted_call r limiter true key altkey (ok (ltb m limit)) s
      call_counts m now s same found =
          call-limited now s uid limit enabled user known given some_limit
          ∙ rw (there.0, there.1)
              (limited_counts limit m now c.service (some uid) s some_limit (rw same found)
                ∙ rw same)

      tick-Counts :
          (s : r.State) (m gap rest : ℕ)
          → Counts key s m rest
          → Counts key (r.tick s gap) m (rest - gap)
      tick-Counts s m gap rest h n n< = r.later-tick s gap n key ∙ h (gap + n) (omega arith)

      later_same :
          (gap now left : ℕ)
          → ((t : ℕ) → t ≤ gap + left → interval_of limiter.interval (now + t) ≡ i)
          → (t : ℕ) → t ≤ left
          → interval_of limiter.interval (now + gap + t) ≡ i
      later_same gap now left same t t≤ =
          ap (interval_of limiter.interval) (omega arith) ∙ same (gap + t) (omega arith)

      call_now :
          (m now left : ℕ) (s : r.State)
          → ((t : ℕ) → t ≤ left → interval_of limiter.interval (now + t) ≡ i)
          → get r s key ≡ counter m
          → call r codec sha1 limiter (record c { now = now }) granted s
            ≡ counted_call r limiter true key altkey (ok (ltb m limit)) s
      call_now m now left s same found =
          call_counts m now s
            (ap (interval_of limiter.interval) (omega arith) ∙ same 0 (omega arith)) found

      answers_counted :
          (gaps : List ℕ) (m left rest now : ℕ) (s : r.State)
          → left ≡ limit - m
          → ((t : ℕ) → t ≤ seconds gaps → interval_of limiter.interval (now + t) ≡ i)
          → get r s key ≡ counter m
          → (0 < m → Counts key s m rest)
          → seconds gaps < rest
          → rest ≤ limiter.interval - 1
          → answers gaps now s ≡ allowed left gaps
      unfolding counted_call
      answers_counted [] m left rest now s e same found h short ttl = refl
      answers_counted (gap ∷ gaps) m zero rest now s e same found h short ttl =
          let full : ltb m limit ≡ false = ground arith in
          let kept = tick-Counts s m gap rest (h (omega arith)) in
          rw (call_now m now (gap + seconds gaps) s same found) (
            rw full (
              ap (λ (t : List (Result Bool)). ok true ∷ t)
                (answers_counted gaps m zero (rest - gap) (now + gap) (r.tick s gap) e
                  (later_same gap now (seconds gaps) same) (kept 0 (omega arith)) (λ _. kept)
                  (omega arith) (omega arith))))
      answers_counted (gap ∷ gaps) m (suc left) rest now s e same found h short ttl =
          let room : ltb m limit ≡ true = ground arith in
          let one_more =
            count_call-Counts key altkey s m (alt_key c.service (some uid) i bit) found in
          let kept = tick-Counts _ (suc m) gap (limiter.interval - 1) one_more in
          rw (call_now m now (gap + seconds gaps) s same found) (
            rw room (
              ap (λ (t : List (Result Bool)). ok false ∷ t)
                (answers_counted gaps (suc m) left (limiter.interval - 1 - gap) (now + gap) _
                  (omega arith) (later_same gap now (seconds gaps) same) (kept 0 (omega arith))
                  (λ _. kept) (omega arith) (omega arith))))

    -- With redis up, calls of a user in one interval, the first of which finds no count: the first
    -- `limit` of them pass and every other is told that the limit is exceeded, as long as fewer
    -- seconds than the interval's less one go by from the first call on.
    pub limit_per_interval :
        (uid : String) (limit i now : ℕ) (gaps : List ℕ) (s : r.State)
        → limiter.enable ≡ true
        → c.uid ≡ some uid
        → (uid == "") ≡ false
        → c.limit ≡ number (pos limit)
        → 0 < limit
        → (c.up ≡ true) × (c.piped ≡ true)
        → ((t : ℕ) → t ≤ seconds gaps → interval_of limiter.interval (now + t) ≡ i)
        → get r s (rate_key c.service (some uid) i) ≡ none
        → seconds gaps < limiter.interval - 1
        → answers gaps now s ≡ allowed limit gaps
    limit_per_interval uid limit i now gaps s enabled user known given h there same none_yet short =
        let bit : i < 2 =
          subst (λ (j : ℕ). j < 2) (same 0 (omega arith))
            (interval_of_lt limiter.interval (now + 0) (omega arith)) in
        answers_counted uid limit i enabled user known given h there bit gaps 0 limit
          (limiter.interval - 1) now s (omega arith) same none_yet (λ absurd. ground arith) short
          (omega arith)
