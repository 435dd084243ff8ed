-- ===== src/Examples/LimitRuns.antt =====
-- The rate limiter and the metrics on a table.
use apicrud.Prelude.{
  ℕ, ◌+◌, ◌≤◌, true, false, none, some, String, [], ◌∷◌, ◌≡◌, ◌↔◌, refl, arith, number_eq,
}
use apicrud.Prelude.Int.{pos}
use apicrud.Python.Result.{ok}
use apicrud.Python.Dict.{lookup}
use apicrud.Redis.{Redis}
use apicrud.Redis.Table.{table, Table, empty_table}
use apicrud.Session.{Content, Codec}
use apicrud.Grants.{Limit, undefined, number}
use apicrud.RateLimit.{Limiter, Call, interval_of}
use apicrud.RateLimit.Interval.{answers, limit_per_interval}
use apicrud.Metrics.{Metrics, Metric, grant, Amount, store, check}
use apicrud.Metrics.Period.{uses, limit_per_period}
use apicrud.Metrics.Credit.{check-store}

abbrev plain : Codec Content
plain = record { seal = λ iv c. c; unseal = λ c. some c; unseal-seal = λ iv c. refl }

abbrev store_of_values : Redis Content
store_of_values = table Content

abbrev empty : Table Content
empty = empty_table Content

abbrev minute : Limiter
minute = record { enable = true; interval = 60 }

abbrev no_sha1 : String → String
no_sha1 secret = secret

abbrev limited_call : Call
limited_call = record {
  limit = number (pos 2);
  service = "*";
  uid = some "u-1";
  caller = record { apikey = none; username = none };
  now = 100;
  up = true;
  piped = true;
}

abbrev no_grants : String → Limit
no_grants name = undefined

same_minute : (t : ℕ) → t ≤ 30 → interval_of 60 (70 + t) ≡ 1
unfolding interval_of
same_minute t h = omega arith

limit_per_interval_example :
    answers store_of_values minute plain no_sha1 limited_call no_grants (10 ∷ 10 ∷ 10 ∷ []) 70 empty
    ≡ ok false ∷ ok false ∷ ok true ∷ []
limit_per_interval_example =
    limit_per_interval store_of_values minute plain no_sha1 limited_call no_grants "u-1" 2 1 70
      (10 ∷ 10 ∷ 10 ∷ []) empty refl refl refl refl (omega arith) (refl, refl) same_minute refl
      (omega arith)

abbrev uploads : Metric
uploads = record { style = grant; scope = "user"; period = "day"; notify = 60 }

abbrev metrics_of : Limit → Metrics
metrics_of limit = record {
  uid = some "u-1";
  metrics = ("uploads", uploads) ∷ [];
  instance_id = "host-1";
  sends = true;
  granted = λ name. limit;
}

limit_per_period_example :
    (uses store_of_values
      (metrics_of (number (pos 2)))
      "uploads"
      []
      uploads
      (600 ∷ 600 ∷ 600 ∷ [])
      empty).1
    ≡ ok true ∷ ok true ∷ ok false ∷ []
unfolding lookup
limit_per_period_example =
    limit_per_period store_of_values (metrics_of (number (pos 2))) "uploads" [] uploads 2 refl refl
      refl (600 ∷ 600 ∷ 600 ∷ []) empty (some 86400) (omega arith) refl refl refl

check-store_example :
    (check store_of_values (metrics_of (number (pos 2))) "uploads" empty ≡ ok none) ↔ (
      (store store_of_values (metrics_of (number (pos 2))) "uploads" [] Amount.absent empty).2
      ≡ ok false)
unfolding lookup
check-store_example =
    check-store store_of_values (metrics_of (number (pos 2))) "uploads" uploads empty refl refl refl
      tt
