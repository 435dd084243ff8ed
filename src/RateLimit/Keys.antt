-- ===== src/RateLimit/Keys.antt =====
-- apicrud/ratelimit.py, RateLimit.call: the keys for the even and for the odd interval.
use text.Mathlib.TextLemmas.{append_cancel_left}
use native.Mathlib.Nat.{mod-lt, div-lt_iff_lt-mul}
use apicrud.Prelude.{
  ℕ, zero, suc, ◌*◌, ◌%◌, ◌<◌, false, Option, String, ◌≡◌, refl, arith, if◌then◌else◌, ◌==◌,
  text_eq, number_eq, eq_iff, Bool-cases, inl, inr,
}
use apicrud.Python.Text.{show}
use apicrud.Python.Number.{decimal}
use apicrud.RateLimit.{interval_of, rate_key}

pub rate_key_injective :
    (service : String) (uid : Option String) (i j : ℕ)
    → rate_key service uid i ≡ rate_key service uid j
    → decimal i ≡ decimal j
unfolding rate_key
rate_key_injective service uid i j e = append_cancel_left ":" _ _ (
    append_cancel_left (show uid) _ _ (
      append_cancel_left ":" _ _
        (append_cancel_left service _ _ (append_cancel_left "rate:" _ _ e))))

pub interval_of_lt : (interval now : ℕ) → 0 < interval → interval_of interval now < 2
unfolding interval_of
interval_of_lt interval now h =
    let below : now % (interval * 2) < interval * 2 = mod-lt now (omega arith) in
    (div-lt_iff_lt-mul h).1 (omega arith)

keys_differ :
    (service : String) (uid : Option String) (i j : ℕ)
    → (decimal i == decimal j) ≡ false
    → (rate_key service uid i == rate_key service uid j) ≡ false
keys_differ service uid i j other =
    elim (Bool-cases (rate_key service uid i == rate_key service uid j)) [
      | inl same ↦
          let e = rate_key_injective service uid i j ((eq_iff _ _).0 same) in
          let same' = (eq_iff (decimal i) (decimal j)).1 e in cc
      | inr differ ↦ differ
    ]

-- The keys of the even and of the odd interval are two keys.
pub alt_key :
    (service : String) (uid : Option String) (i : ℕ)
    → i < 2
    → (rate_key service uid (if i == 0 then 1 else 0) == rate_key service uid i) ≡ false
unfolding decimal
alt_key service uid zero h = keys_differ service uid 1 0 refl
alt_key service uid (suc zero) h = keys_differ service uid 0 1 refl
alt_key service uid (suc (suc i)) h = ground arith
