-- ===== src/Metrics/Period.antt =====
-- apicrud/metrics.py, Metrics.store for a grant: the uses in one period.
use apicrud.Prelude.{
  ℕ, zero, suc, ◌+◌, ◌-◌, ◌*◌, ◌<◌, ◌≤◌, Bool, true, false, ◌&&◌, not, Option, none, some, String,
  List, [], ◌∷◌, ◌++◌, ◌≡◌, refl, ◌∙◌, ap, arith, length, length-append, ◌==◌, text_eq, number_eq,
  eq_refl,
}
use apicrud.Prelude.Int.{pos, negsuc}
use apicrud.Python.Result.{Result, ok}
use apicrud.Python.Sort.{sort}
use apicrud.Python.Dict.{lookup}
use apicrud.Redis.{Redis, Value, int, get, lasts, counted}
use apicrud.Grants.{number}
use apicrud.Metrics.{
  Metrics, Metric, grant, Amount, Send, intervals, default_labels, metric_key, crosses, grant_step,
  start_period, store_step, store_grant, store_style, store_metric, store,
}
use apicrud.Metrics.Use.{
  lasts_earlier, one_down, open_messages, at_most_one, length-if, open_messages_step, step_first,
  step_spent, step_left,
}

module _ {B : Type 0} (r : Redis B) (m : Metrics) (name : String) (labels : List String)
    (metric : Metric) where
  abbrev key : String
  key = metric_key name (sort (default_labels m metric labels))

  -- uses with so many seconds after each: the messages, and the answers
  abbrev pub uses : List ℕ → r.State → List Send × List (Result Bool)
  uses [] s = ([], [])
  uses (gap ∷ gaps) s =
      let (s', sent, answer) = store r m name labels Amount.absent s in
      let (later_sent, later) = uses gaps (r.tick s' gap) in (sent ++ later_sent, answer ∷ later)

  abbrev pub seconds : List ℕ → ℕ
  seconds [] = 0
  seconds (gap ∷ gaps) = gap + seconds gaps

  -- so many uses are granted, and the others are refused
  abbrev pub granted_uses : ℕ → List ℕ → List (Result Bool)
  granted_uses left [] = []
  granted_uses zero (gap ∷ gaps) = ok false ∷ granted_uses zero gaps
  granted_uses (suc left) (gap ∷ gaps) = ok true ∷ granted_uses left gaps

  store_grants :
      (s : r.State)
      → lookup name m.metrics ≡ some metric
      → metric.style ≡ grant
      → store r m name labels Amount.absent s ≡ store_grant r m metric name key s
  unfolding store store_metric store_style
  store_grants s configured granted = rw configured (rw granted)

  -- the key holds a credit for at least so many seconds
  abbrev Holds : r.State → ℕ → ℕ → Type 0
  Holds s c long = (n : ℕ) → n ≤ long → r.get_later s n key ≡ some (int (pos c))

  tick-Holds : (s : r.State) (c gap long : ℕ) → Holds s c (gap + long) → Holds (r.tick s gap) c long
  tick-Holds s c gap long h n n≤ = r.later-tick s gap n key ∙ h (gap + n) (omega arith)

  incr_by-Holds :
      (s : r.State) (c long : ℕ) → Holds s (suc c) long → Holds (r.incr_by s key (negsuc 0)) c long
  incr_by-Holds s c long h n n≤ =
      r.later-incr_by s key (negsuc 0) (pos (suc c)) n key (ap counted (h 0 (omega arith)))
      ∙ rw (eq_refl key) (rw (h 0 (omega arith), h n n≤) (rw (one_down c)))

  put-Holds :
      (s : r.State) (c long : ℕ) (ex : Option ℕ)
      → lasts ex long ≡ true
      → Holds (r.put s key (int (pos c)) ex) c long
  put-Holds s c long ex h n n≤ =
      r.later-put s key (int (pos c)) ex n key
      ∙ rw (eq_refl key) (rw (lasts_earlier ex n long n≤ h))

  module _ (limit : ℕ) (configured : lookup name m.metrics ≡ some metric)
      (style : metric.style ≡ grant) (given : m.granted name ≡ number (pos limit)) where
    store_found :
        (s : r.State) (v : Option (Value B))
        → get r s key ≡ v
        → store r m name labels Amount.absent s
          ≡ store_step r m metric name key (grant_step metric (number (pos limit)) v) s
    unfolding store_grant
    store_found s v found = store_grants s configured style ∙ rw (given, found)

    -- whether a use that leaves `c` sends the message
    abbrev notices : ℕ → Bool
    notices c = not (metric.notify == 0) && crosses metric.notify limit c

    uses_left :
        (gaps : List ℕ) (c : ℕ) (s : r.State)
        → c < limit
        → Holds s c (seconds gaps)
        → (uses gaps s).1 ≡ granted_uses c gaps
    unfolding store_step
    uses_left [] c s h holds = refl
    uses_left (gap ∷ gaps) zero s h holds =
        rw (store_found s (some (int (pos 0))) (holds 0 (omega arith))) (
          rw (step_spent B metric limit h) (
            ap (λ (t : List (Result Bool)). ok false ∷ t)
              (uses_left gaps 0 (r.tick s gap) h (tick-Holds s 0 gap (seconds gaps) holds))))
    uses_left (gap ∷ gaps) (suc c) s h holds =
        rw (store_found s (some (int (pos (suc c)))) (holds 0 (omega arith))) (
          rw (step_left B metric limit c h) (
            ap (λ (t : List (Result Bool)). ok true ∷ t)
              (uses_left gaps c _ (omega arith)
                (tick-Holds _ c gap (seconds gaps) (incr_by-Holds s c _ holds)))))

    first_use :
        (n : ℕ) (s : r.State) (ex : Option ℕ)
        → limit ≡ suc n
        → lookup metric.period intervals ≡ some ex
        → get r s key ≡ none
        → store r m name labels Amount.absent s ≡ (r.put s key (int (pos n)) ex, [], ok true)
    unfolding store_step start_period
    first_use n s ex e period unused =
        store_found s none unused ∙ rw e (rw (step_first B metric n) (rw period))

    granted_all :
        (n : ℕ) (gaps : List ℕ) (s : r.State) (ex : Option ℕ)
        → limit ≡ suc n
        → lookup metric.period intervals ≡ some ex
        → lasts ex (seconds gaps) ≡ true
        → get r s key ≡ none
        → (uses gaps s).1 ≡ granted_uses (suc n) gaps
    granted_all n [] s ex e period long unused = refl
    granted_all n (gap ∷ gaps) s ex e period long unused = rw (first_use n s ex e period unused) (
        ap (λ (t : List (Result Bool)). ok true ∷ t)
          (uses_left gaps n _ (omega arith)
            (tick-Holds _ n gap (seconds gaps) (put-Holds s n _ ex long))))

    -- The first use in a period starts it, and exactly `limit` uses are granted before the period
    -- ends: every use beyond them is refused.
    pub limit_per_period :
        (gaps : List ℕ) (s : r.State) (ex : Option ℕ)
        → 0 < limit
        → lookup metric.period intervals ≡ some ex
        → lasts ex (seconds gaps) ≡ true
        → get r s key ≡ none
        → (uses gaps s).1 ≡ granted_uses limit gaps
    limit_per_period gaps s ex h period long unused =
        let e : limit ≡ suc (limit - 1) = omega arith in
        granted_all (limit - 1) gaps s ex e period long unused
        ∙ ap (λ (n : ℕ). granted_uses n gaps) (omega arith)

    abbrev edge : ℕ
    edge = (100 - metric.notify) * limit

    sent_left :
        (gaps : List ℕ) (c : ℕ) (s : r.State)
        → c < limit
        → Holds s c (seconds gaps)
        → length (uses gaps s).0 ≤ open_messages edge c
    unfolding store_step crosses
    sent_left [] c s h holds = omega arith
    sent_left (gap ∷ gaps) zero s h holds =
        rw (store_found s (some (int (pos 0))) (holds 0 (omega arith))) (
          rw (step_spent B metric limit h)
            (sent_left gaps 0 (r.tick s gap) h (tick-Holds s 0 gap (seconds gaps) holds)))
    sent_left (gap ∷ gaps) (suc c) s h holds =
        let later =
          sent_left gaps c _ (omega arith)
            (tick-Holds _ c gap (seconds gaps) (incr_by-Holds s c _ holds)) in
        rw (store_found s (some (int (pos (suc c)))) (holds 0 (omega arith))) (
          rw (step_left B metric limit c h) (
            rw (length-append _ _) (
              rw (length-if _ _) (
                omega
                  (arith, later, open_messages_step edge c (not (metric.notify == 0)) m.sends)))))

    -- In one period the user is told at most once that most of the grant is used.
    pub notified_once :
        (gaps : List ℕ) (s : r.State) (ex : Option ℕ)
        → 0 < limit
        → lookup metric.period intervals ≡ some ex
        → lasts ex (seconds gaps) ≡ true
        → get r s key ≡ none
        → length (uses gaps s).0 ≤ 1
    notified_once [] s ex h period long unused = omega arith
    notified_once (gap ∷ gaps) s ex h period long unused =
        let e : limit ≡ suc (limit - 1) = omega arith in
        let later =
          sent_left gaps (limit - 1) _ (omega arith)
            (tick-Holds _ (limit - 1) gap (seconds gaps) (put-Holds s (limit - 1) _ ex long)) in
        rw (first_use (limit - 1) s ex e period unused)
          (omega (arith, later, at_most_one edge (limit - 1)))
