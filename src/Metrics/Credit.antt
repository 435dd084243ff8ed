-- ===== src/Metrics/Credit.antt =====
-- apicrud/metrics.py, Metrics.check beside Metrics.store.
use apicrud.Prelude.{
  ℕ, Bool, true, false, Option, none, some, String, [], ◌≡◌, ◌↔◌, refl, ◌∙◌, ◌==◌, text_eq,
  number_eq, Bool-cases, inl, inr,
}
use apicrud.Prelude.Int.{ℤ, pos, negsuc, ◌-ℤ◌, leb_ℤ}
use apicrud.Python.Result.{Result, ok, err}
use apicrud.Python.Float.{parse_float}
use apicrud.Python.Sort.{sort, insert_sorted}
use apicrud.Python.Text.{truthy}
use apicrud.Python.Dict.{lookup}
use apicrud.Redis.{Redis, Value, int, text, sealed, real, get}
use apicrud.Grants.{Limit, undefined, number, word}
use apicrud.Metrics.{
  Metrics, Metric, grant, Amount, Step, starts, refuses, counts_down, intervals, default_labels,
  uid_labels, metric_key, grant_step, start_period, store_step, store_grant, store_style,
  store_metric, store, float_limit, credit, check_style, check,
}

module _ {B : Type 0} (r : Redis B) (m : Metrics) (name : String) (metric : Metric) where
  -- the key holds nothing or an integer, as `store` leaves it
  abbrev pub IsWhole : Option (Value B) → Type 0
  IsWhole none = Unit {0}
  IsWhole (some (int z)) = Unit {0}
  IsWhole (some (text t)) = ⊥
  IsWhole (some (sealed b)) = ⊥
  IsWhole (some (real x)) = ⊥

  abbrev RefusesIff : Limit → Option (Value B) → Type 0
  RefusesIff limit v = (credit r limit v ≡ ok none) ↔ (grant_step metric limit v ≡ ok refuses)

  float_limit-some : (w : String) (value : Option (ℤ × Bool)) → float_limit r w value ≡ ok none → ⊥
  unfolding float_limit
  float_limit-some w none h = cc
  float_limit-some w (some value) h = cc

  credit-step : (limit : Limit) (v : Option (Value B)) → IsWhole v → RefusesIff limit v
  unfolding credit grant_step
  credit-step (number limit) (some (int z)) whole = elim (Bool-cases (leb_ℤ limit z)) [
    | inl full ↦ rw full (λ h. cc, λ h. cc)
    | inr used ↦ elim (Bool-cases (leb_ℤ z (pos 0))) [
      | inl none_left ↦ rw (used, none_left) (λ h. refl, λ h. refl)
      | inr some_left ↦ rw (used, some_left) (λ h. cc, λ h. cc)
    ]
  ]
  credit-step (number limit) none whole = (λ h. cc, λ h. cc)
  credit-step undefined none whole = (λ h. cc, λ h. cc)
  credit-step (word w) none whole = (λ h. absurd (float_limit-some w (parse_float w) h), λ h. cc)
  credit-step undefined (some (int z)) whole = (λ h. cc, λ h. cc)
  credit-step (word w) (some (int z)) whole = (λ h. cc, λ h. cc)
  credit-step limit (some (text t)) whole = absurd whole
  credit-step limit (some (sealed b)) whole = absurd whole
  credit-step limit (some (real x)) whole = absurd whole

  started-passes :
      (key : String) (c : ℤ) (period : Option (Option ℕ)) (s : r.State)
      → (start_period r key c period s).2 ≡ ok false
      → ok (starts c) ≡ ok refuses
  unfolding start_period
  started-passes key c none s h = cc
  started-passes key c (some ex) s h = cc

  step-refuses :
      (key : String) (step : Result Step) (s : r.State)
      → ((store_step r m metric name key step s).2 ≡ ok false) ↔ (step ≡ ok refuses)
  unfolding store_step
  step-refuses key (err e) s = (λ h. cc, λ h. cc)
  step-refuses key (ok (starts c)) s =
      (started-passes key c (lookup metric.period intervals) s, λ h. cc)
  step-refuses key (ok refuses) s = (λ h. refl, λ h. refl)
  step-refuses key (ok (counts_down b)) s = (λ h. cc, λ h. cc)

  check_grant :
      (s : r.State)
      → lookup name m.metrics ≡ some metric
      → metric.style ≡ grant
      → check r m name s ≡ credit r (m.granted name) (get r s (metric_key name (uid_labels m.uid)))
  unfolding check check_style
  check_grant s configured style = rw configured (rw style)

  sort_one : (uid : Option String) → sort (uid_labels uid) ≡ uid_labels uid
  unfolding sort insert_sorted uid_labels
  sort_one uid = elim (Bool-cases (truthy uid)) [ inl h ↦ rw h | inr h ↦ rw h ]

  store_own :
      (s : r.State)
      → lookup name m.metrics ≡ some metric
      → metric.style ≡ grant
      → (metric.scope == "instance") ≡ false
      → store r m name [] Amount.absent s
        ≡ store_grant r m metric name (metric_key name (uid_labels m.uid)) s
  unfolding store store_metric store_style default_labels
  store_own s configured style scope = rw configured (rw style (rw scope (rw (sort_one m.uid))))

  -- For a grant that is counted by user, and whose key holds nothing or an integer, as `store` leaves
  -- it, `check` answers that no credit is left exactly when the next `store` refuses the use.
  pub check-store :
      (s : r.State)
      → lookup name m.metrics ≡ some metric
      → metric.style ≡ grant
      → (metric.scope == "instance") ≡ false
      → IsWhole (get r s (metric_key name (uid_labels m.uid)))
      → (check r m name s ≡ ok none) ↔ ((store r m name [] Amount.absent s).2 ≡ ok false)
  unfolding store_grant
  check-store s configured style scope whole =
      let key = metric_key name (uid_labels m.uid) in
      let agree = credit-step (m.granted name) (get r s key) whole in
      let refusal = step-refuses key (grant_step metric (m.granted name) (get r s key)) s in
      rw (check_grant s configured style, store_own s configured style scope)
        (λ h. refusal.1 (agree.0 h), λ h. agree.1 (refusal.0 h))

  -- A limit of 0 still grants one use: the first `store` of a period sets the key to -1 and returns
  -- true.
  pub zero_limit_grants :
      (s : r.State) (ex : Option ℕ)
      → lookup name m.metrics ≡ some metric
      → metric.style ≡ grant
      → (metric.scope == "instance") ≡ false
      → lookup metric.period intervals ≡ some ex
      → m.granted name ≡ number (pos 0)
      → get r s (metric_key name (uid_labels m.uid)) ≡ none
      → store r m name [] Amount.absent s
        ≡ (r.put s (metric_key name (uid_labels m.uid)) (int (negsuc 0)) ex, [], ok true)
  unfolding store_grant grant_step store_step start_period ◌-ℤ◌
  zero_limit_grants s ex configured style scope period given unused =
      store_own s configured style scope ∙ rw (given, unused) (rw period)
