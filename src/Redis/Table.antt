-- ===== src/Redis/Table.antt =====
-- An instance of the interface to redis: the value of every key at every later time.
use apicrud.Prelude.{
  ℕ, ◌+◌, Option, none, some, String, ◌≡◌, refl, if◌then◌else◌, ◌==◌, text_eq, ltb,
}
use apicrud.Prelude.Int.{ℤ, ◌+ℤ◌}
use apicrud.Redis.{Value, real, Redis, lasts, counted, recount}

abbrev pub Table : Type 0 → Type 0
Table B = ℕ → String → Option (Value B)

abbrev pub counted_up :
    {B : Type 0} → Option ℤ → ℤ → Option (Value B) → Option (Value B) → Option (Value B)
counted_up none d now later = later
counted_up (some z) d now later = recount (z +ℤ d) now later

pub table-incr_by :
    {B : Type 0} (s : Table B) (k : String) (d z : ℤ) (n : ℕ) (j : String)
    → counted (s 0 k) ≡ some z
    → (if k == j then counted_up (counted (s 0 k)) d (s 0 k) (s n k) else s n j)
      ≡ (if k == j then recount (z +ℤ d) (s 0 k) (s n k) else s n j)
table-incr_by s k d z n j h = rw h

abbrev pub table : (B : Type 0) → Redis B
table B = record {
  State = Table B;
  get_later = λ s n k. s n k;
  put = λ s k v ex n j. if k == j then (if lasts ex n then some v else none) else s n j;
  delete = λ s k n j. if k == j then none else s n j;
  incr_by = λ s k d n j. if k == j then counted_up (counted (s 0 k)) d (s 0 k) (s n k) else s n j;
  incr_by_float = λ s k x n j. if k == j then some (real x) else s n j;
  expire = λ s k ex n j. if k == j then (if ltb n ex then s 0 k else none) else s n j;
  tick = λ s m n k. s (m + n) k;
  later-put = λ s k v ex n j. refl;
  later-delete = λ s k n j. refl;
  later-incr_by = table-incr_by;
  later-incr_by_float = λ s k x n j other. rw other;
  later-expire = λ s k ex n j. refl;
  later-tick = λ s m n k. refl;
}

abbrev pub empty_table : (B : Type 0) → Table B
empty_table B n k = none
