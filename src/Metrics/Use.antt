-- ===== src/Metrics/Use.antt =====
-- One use of a grant, and the arithmetic of its credit.
use apicrud.Prelude.{
  ℕ, suc, ◌+◌, ◌-◌, ◌*◌, ◌<◌, ◌≤◌, Bool, true, false, ◌&&◌, not, Option, none, some, [], ◌∷◌, ◌≡◌,
  refl, arith, length, if◌then◌else◌, ◌==◌, text_eq, number_eq, ltb, leb,
}
use apicrud.Prelude.Int.{pos, negsuc, ◌+ℤ◌, ◌-ℤ◌, leb_ℤ}
use apicrud.Python.Result.{ok}
use apicrud.Redis.{int, lasts}
use apicrud.Grants.{number}
use apicrud.Metrics.{Metric, Send, starts, refuses, counts_down, crosses, grant_step}

pub lasts_earlier : (ex : Option ℕ) (n m : ℕ) → n ≤ m → lasts ex m ≡ true → lasts ex n ≡ true
lasts_earlier none n m h l = refl
lasts_earlier (some e) n m h l = ground arith

pub one_less : (n : ℕ) → pos (suc n) -ℤ pos 1 ≡ pos n
unfolding ◌-ℤ◌
one_less n = ground arith

pub one_down : (n : ℕ) → pos (suc n) +ℤ negsuc 0 ≡ pos n
unfolding ◌+ℤ◌
one_down n = ground arith

module _ (B : Type 0) (metric : Metric) where
  pub step_first :
      (n : ℕ) → grant_step {B = B} metric (number (pos (suc n))) none ≡ ok (starts (pos n))
  unfolding grant_step
  step_first n = rw (one_less n)

  pub step_spent :
      (limit : ℕ)
      → 0 < limit
      → grant_step {B = B} metric (number (pos limit)) (some (int (pos 0))) ≡ ok refuses
  unfolding grant_step
  step_spent limit h = ground arith

  pub step_left :
      (limit c : ℕ)
      → suc c < limit
      → grant_step {B = B} metric (number (pos limit)) (some (int (pos (suc c))))
        ≡ ok (counts_down (not (metric.notify == 0) && crosses metric.notify limit (suc c)))
  unfolding grant_step
  step_left limit c h =
      let below_limit : leb_ℤ (pos limit) (pos (suc c)) ≡ false = ground arith in
      let positive : leb_ℤ (pos (suc c)) (pos 0) ≡ false = ground arith in
      rw below_limit (rw positive)

-- the messages that can still come, at a credit of `c`
abbrev pub open_messages : ℕ → ℕ → ℕ
open_messages edge c = if leb edge (c * 100) then 1 else 0

pub at_most_one : (edge c : ℕ) → open_messages edge c ≤ 1
at_most_one edge c = ground arith

pub length-if : (b : Bool) (x : Send) → length (if b then x ∷ [] else []) ≡ (if b then 1 else 0)
length-if true x = refl
length-if false x = refl

pub open_messages_step :
    (edge c : ℕ) (on sends : Bool)
    → (if (on && (leb edge (suc c * 100) && ltb ((suc c - 1) * 100) edge)) && sends then 1 else 0)
        + open_messages edge c
      ≤ open_messages edge (suc c)
open_messages_step edge c true true = ground arith
open_messages_step edge c true false = ground arith
open_messages_step edge c false sends = ground arith
