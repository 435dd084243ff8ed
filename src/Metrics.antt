-- ===== src/Metrics.antt =====
-- apicrud/metrics.py: Metrics.store and Metrics.check. The proofs are in the modules below.
pub mod Use
pub mod Period
pub mod Credit
use apicrud.Prelude.{
  ℕ, ◌+◌, ◌-◌, ◌*◌, Bool, true, false, not, ◌&&◌, Option, none, some, String, ◌⧺◌, List, [], ◌∷◌,
  if◌then◌else◌, ◌==◌, text_eq, number_eq, ltb, leb,
}
use apicrud.Prelude.Int.{ℤ, pos, negsuc, ◌-ℤ◌, leb_ℤ, pos_part}
use apicrud.Python.Result.{Exn, Result, ok, err, ◌>>=◌, or_raise}
use apicrud.Python.Text.{truthy, join, show}
use apicrud.Python.Sort.{sort}
use apicrud.Python.Float.{parse_float, is_positive}
use apicrud.Python.Dict.{Dict, lookup}
use apicrud.Redis.{Redis, Value, text, sealed, int, real, get, counted}
use apicrud.Grants.{Limit, undefined, number, word}

abbrev pub intervals : Dict (Option ℕ)
intervals =
    ("hour", some 3600)
    ∷ ("day", some (3600 * 24))
    ∷ ("week", some (3600 * 24 * 7))
    ∷ ("month", some (3600 * 24 * 31))
    ∷ ("indefinite", none)
    ∷ []

pub data Style : Type 0 where
  grant counter gauge other_style : Style

-- an entry of the metrics section of service_config.yaml
pub record Metric : Type 0 where
  pub style : Style
  pub scope : String
  pub period : String
  pub notify : ℕ

-- the argument `value`: None, an int, the text of a float, or a str
pub data Amount : Type 0 where
  absent : Amount
  whole : ℤ → Amount
  fraction : String → Amount
  other : String → Amount

-- one call of func_send
pub record Send : Type 0 where
  pub to_uid : Option String
  pub template : String
  pub percent : ℕ
  pub period : String
  pub resource : String

-- what the object and its surroundings hold: `instance_id` is the id in the service's registration,
-- `sends` says whether there is a func_send, and `granted` is what Grants returns
pub record Metrics : Type 0 where
  pub uid : Option String
  pub metrics : Dict Metric
  pub instance_id : String
  pub sends : Bool
  pub granted : String → Limit

-- ['uid=%s' % self.uid] if self.uid else []
unfoldable pub uid_labels : Option String → List String
uid_labels uid = if truthy uid then ("uid=" ⧺ show uid) ∷ [] else []

unfoldable pub default_labels : Metrics → Metric → List String → List String
default_labels m metric [] =
    if metric.scope == "instance" then ("instance=" ⧺ m.instance_id) ∷ [] else uid_labels m.uid
default_labels m metric (label ∷ labels) = label ∷ labels

-- 'mtr:%s:%s' % (name, ",".join(labels))
unfoldable pub metric_key : String → List String → String
metric_key name labels = "mtr:" ⧺ (name ⧺ (":" ⧺ join "," labels))

-- used >= 100 - notify and used_next < 100 - notify, without the rounding of floats: `current` is
-- positive and less than `limit` here
unfoldable pub crosses : ℕ → ℕ → ℕ → Bool
crosses notify limit current =
    leb ((100 - notify) * limit) (current * 100)
    && ltb ((current - 1) * 100) ((100 - notify) * limit)

-- what `store` does for a grant
pub data Step : Type 0 where
  starts : ℤ → Step
  refuses : Step
  counts_down : (notifies : Bool) → Step

unfoldable pub grant_step : {B : Type 0} → Metric → Limit → Option (Value B) → Result Step
grant_step metric (number limit) none = ok (starts (limit -ℤ pos 1))
grant_step metric undefined none = err Exn.type_error
grant_step metric (word w) none = err Exn.type_error
grant_step metric (number limit) (some (int z)) =
    if leb_ℤ limit z
    then ok (starts (limit -ℤ pos 1))
    else if leb_ℤ z (pos 0)
    then ok refuses
    else ok (
        counts_down
          (not (metric.notify == 0) && crosses metric.notify (pos_part limit) (pos_part z)))
grant_step metric undefined (some (int z)) = err Exn.type_error
grant_step metric (word w) (some (int z)) = err Exn.type_error
grant_step metric limit (some (text t)) = err Exn.value_error
grant_step metric limit (some (sealed b)) = err Exn.value_error
grant_step metric limit (some (real x)) = err Exn.value_error

-- the float that `check` returns: that of an int, or that of a text
pub data Remaining : Type 0 where
  whole_credit : ℤ → Remaining
  real_credit : String → Remaining

module _ {B : Type 0} (r : Redis B) where
  -- the state, the messages, and the result
  abbrev pub Stored : Type 0
  Stored = r.State × List Send × Result Bool

  -- set(key, limit - 1, ex=INTERVALS[metric['period']])
  unfoldable pub start_period : String → ℤ → Option (Option ℕ) → r.State → Stored
  start_period key credit none s = (s, [], err Exn.key_error)
  start_period key credit (some ex) s = (r.put s key (int credit) ex, [], ok true)

  unfoldable pub store_step : Metrics → Metric → String → String → Result Step → r.State → Stored
  store_step m metric name key (err e) s = (s, [], err e)
  store_step m metric name key (ok (starts credit)) s =
      start_period key credit (lookup metric.period intervals) s
  store_step m metric name key (ok refuses) s = (s, [], ok false)
  store_step m metric name key (ok (counts_down notifies)) s = (
    r.incr_by s key (negsuc 0),
    if notifies && m.sends
        then record {
          to_uid = m.uid;
          template = "usage_notify";
          percent = metric.notify;
          period = metric.period;
          resource = name;
        }
          ∷ []
        else [],
    ok true,
  )

  unfoldable pub store_grant : Metrics → Metric → String → String → r.State → Stored
  store_grant m metric name key s =
      store_step m metric name key (grant_step metric (m.granted name) (get r s key)) s

  -- INCRBY, which refuses a value that is no integer
  unfoldable pub increment : String → ℤ → Option ℤ → r.State → Stored
  increment key amount none s = (s, [], err Exn.response_error)
  increment key amount (some z) s = (r.incr_by s key amount, [], ok true)

  -- INCRBYFLOAT, which refuses a value that is no number
  unfoldable pub increment_float : String → String → Option (Value B) → r.State → Stored
  increment_float key amount (some (text t)) s = (s, [], err Exn.response_error)
  increment_float key amount (some (sealed b)) s = (s, [], err Exn.response_error)
  increment_float key amount (some (int z)) s = (r.incr_by_float s key amount, [], ok true)
  increment_float key amount (some (real x)) s = (r.incr_by_float s key amount, [], ok true)
  increment_float key amount none s = (r.incr_by_float s key amount, [], ok true)

  unfoldable pub store_counter : String → Amount → r.State → Stored
  store_counter key absent s = increment key (pos 1) (counted (get r s key)) s
  store_counter key (whole z) s = increment key z (counted (get r s key)) s
  store_counter key (fraction x) s = increment_float key x (get r s key) s
  store_counter key (other t) s = (s, [], err Exn.assertion_error)

  unfoldable pub store_gauge : String → Amount → r.State → Stored
  store_gauge key absent s = (s, [], err Exn.data_error)
  store_gauge key (whole z) s = (r.put s key (int z) none, [], ok true)
  store_gauge key (fraction x) s = (r.put s key (real x) none, [], ok true)
  store_gauge key (other t) s = (r.put s key (text t) none, [], ok true)

  unfoldable pub store_style :
      Metrics → Metric → Style → String → String → Amount → r.State → Stored
  store_style m metric grant name key value s = store_grant m metric name key s
  store_style m metric counter name key value s = store_counter key value s
  store_style m metric gauge name key value s = store_gauge key value s
  store_style m metric other_style name key value s = (s, [], ok true)

  unfoldable pub store_metric :
      Metrics → Option Metric → String → List String → Amount → r.State → Stored
  store_metric m none name labels value s = (s, [], err Exn.assertion_error)
  store_metric m (some metric) name labels value s =
      store_style m metric metric.style name
        (metric_key name (sort (default_labels m metric labels))) value s

  unfoldable pub store : Metrics → String → List String → Amount → r.State → Stored
  store m name labels value s = store_metric m (lookup name m.metrics) name labels value s

  -- a float of the text `x`, beside the limit
  unfoldable pub float_credit : Limit → String → Option (ℤ × Bool) → Result (Option Remaining)
  float_credit limit x none = err Exn.value_error
  float_credit undefined x (some value) = err Exn.type_error
  float_credit (word w) x (some value) = err Exn.type_error
  float_credit (number limit) x (some (floor, left)) =
      if leb_ℤ limit floor
      then ok (some (whole_credit limit))
      else if is_positive (floor, left)
      then ok (some (real_credit x))
      else ok none

  -- float(limit), of a text
  unfoldable pub float_limit : String → Option (ℤ × Bool) → Result (Option Remaining)
  float_limit w none = err Exn.value_error
  float_limit w (some value) = ok (some (real_credit w))

  -- the credit that is left, for a grant
  unfoldable pub credit : Limit → Option (Value B) → Result (Option Remaining)
  credit (number limit) none = ok (some (whole_credit limit))
  credit undefined none = err Exn.type_error
  credit (word w) none = float_limit w (parse_float w)
  credit (number limit) (some (int z)) =
      if leb_ℤ limit z
      then ok (some (whole_credit limit))
      else if leb_ℤ z (pos 0)
      then ok none
      else ok (some (whole_credit z))
  credit undefined (some (int z)) = err Exn.type_error
  credit (word w) (some (int z)) = err Exn.type_error
  credit limit (some (text t)) = float_credit limit t (parse_float t)
  credit limit (some (sealed b)) = err Exn.value_error
  credit limit (some (real x)) = float_credit limit x (parse_float x)

  unfoldable pub check_style : Style → Limit → Option (Value B) → Result (Option Remaining)
  check_style grant limit current = credit limit current
  check_style counter limit current = err Exn.assertion_error
  check_style gauge limit current = err Exn.assertion_error
  check_style other_style limit current = err Exn.assertion_error

  unfoldable pub check : Metrics → String → r.State → Result (Option Remaining)
  check m name s = do
    metric ← or_raise (lookup name m.metrics) Exn.assertion_error
    check_style metric.style (m.granted name) (get r s (metric_key name (uid_labels m.uid)))
