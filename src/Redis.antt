-- ===== src/Redis.antt =====
-- redis, which the source calls and does not implement: an interface with the documented behaviour
-- of GET, SET with EX, DEL, EXPIRE, INCRBY and INCRBYFLOAT. The instance in the child module meets
-- it.
pub mod Table
use apicrud.Prelude.{
  ℕ, ◌+◌, Bool, true, false, Option, none, some, String, ◌≡◌, refl, ◌∙◌, ap, arith, ltb,
  Option-cases, inl, inr, if◌then◌else◌, ◌==◌, text_eq,
}
use apicrud.Prelude.Int.{ℤ, ◌+ℤ◌, pos}

-- a stored value: a plain text, a text that the program has encrypted (`B` is the type of those),
-- the decimal text of an integer, which INCRBY counts on, or that of another number
pub data Value (B : Type 0) : Type 0 where
  text : String → Value B
  sealed : B → Value B
  int : ℤ → Value B
  real : String → Value B

-- a key set with `ex` is there for that many seconds
abbrev pub lasts : Option ℕ → ℕ → Bool
lasts none n = true
lasts (some ex) n = ltb n ex

-- the integer that INCRBY starts from: nothing counts as 0, and a text that is no integer is an error
abbrev pub counted : {B : Type 0} → Option (Value B) → Option ℤ
counted none = some (pos 0)
counted (some (int z)) = some z
counted (some (text s)) = none
counted (some (sealed b)) = none
counted (some (real x)) = none

-- the value of a key that held `now`, was counted up to `z`, and would have held `later`
abbrev pub recount : {B : Type 0} → ℤ → Option (Value B) → Option (Value B) → Option (Value B)
recount z none later = some (int z)
recount z (some _) none = none
recount z (some _) (some _) = some (int z)

pub record Redis (B : Type 0) : Type 1 where
  pub State : Type 0
  -- the value of a key after some seconds in which no command comes in
  pub get_later : State → ℕ → String → Option (Value B)
  pub put : State → String → Value B → Option ℕ → State
  pub delete : State → String → State
  pub incr_by : State → String → ℤ → State
  pub incr_by_float : State → String → String → State
  pub expire : State → String → ℕ → State
  pub tick : State → ℕ → State
  pub later-put :
      (s : State) (k : String) (v : Value B) (ex : Option ℕ) (n : ℕ) (j : String)
      → get_later (put s k v ex) n j
        ≡ (if k == j then (if lasts ex n then some v else none) else get_later s n j)
  pub later-delete :
      (s : State) (k : String) (n : ℕ) (j : String)
      → get_later (delete s k) n j ≡ (if k == j then none else get_later s n j)
  pub later-incr_by :
      (s : State) (k : String) (d z : ℤ) (n : ℕ) (j : String)
      → counted (get_later s 0 k) ≡ some z
      → get_later (incr_by s k d) n j
        ≡ (if k == j then recount (z +ℤ d) (get_later s 0 k) (get_later s n k) else get_later s n j)
  pub later-incr_by_float :
      (s : State) (k x : String) (n : ℕ) (j : String)
      → (k == j) ≡ false
      → get_later (incr_by_float s k x) n j ≡ get_later s n j
  pub later-expire :
      (s : State) (k : String) (ex n : ℕ) (j : String)
      → get_later (expire s k ex) n j
        ≡ (if k == j then (if ltb n ex then get_later s 0 k else none) else get_later s n j)
  pub later-tick :
      (s : State) (m n : ℕ) (k : String) → get_later (tick s m) n k ≡ get_later s (m + n) k

-- GET
abbrev pub get : {B : Type 0} (r : Redis B) → r.State → String → Option (Value B)
get r s k = r.get_later s 0 k

-- SET with NX: whether the key was free, and is now set
abbrev pub set_nx :
    {B : Type 0} (r : Redis B) → r.State → String → Value B → Option ℕ → r.State × Bool
set_nx r s k v ex = elim (get r s k) [ none ↦ (r.put s k v ex, true) | some _ ↦ (s, false) ]

-- What a key holds some seconds after it was set.
pub get-tick_put :
    {B : Type 0} (r : Redis B) (s : r.State) (k : String) (v : Value B) (ex : Option ℕ) (n : ℕ)
    (j : String)
    → get r (r.tick (r.put s k v ex) n) j
      ≡ (if k == j then (if lasts ex n then some v else none) else get r (r.tick s n) j)
get-tick_put r s k v ex n j =
    let e : n + 0 ≡ n = omega arith in
    r.later-tick (r.put s k v ex) n 0 j
    ∙ ap (λ (m : ℕ). r.get_later (r.put s k v ex) m j) e
    ∙ r.later-put s k v ex n j
    ∙ rw (r.later-tick s n 0 j, e)

-- SET with NX leaves the other keys as they are.
pub later-set_nx :
    {B : Type 0} (r : Redis B) (s : r.State) (k : String) (v : Value B) (ex : Option ℕ) (n : ℕ)
    (j : String)
    → (k == j) ≡ false
    → r.get_later (set_nx r s k v ex).0 n j ≡ r.get_later s n j
later-set_nx r s k v ex n j other = elim (Option-cases (get r s k)) [
  | inl free ↦ rw (free, set_nx) (r.later-put s k v ex n j ∙ rw other)
  | inr (w, taken) ↦ rw (taken, set_nx)
]

-- Where the key was free, it has the value for as long as it was set.
pub set_nx_free :
    {B : Type 0} (r : Redis B) (s : r.State) (k : String) (v : Value B) (ex : Option ℕ)
    → get r s k ≡ none
    → set_nx r s k v ex ≡ (r.put s k v ex, true)
set_nx_free r s k v ex free = rw (free, set_nx)

pub set_nx_taken :
    {B : Type 0} (r : Redis B) (s : r.State) (k : String) (v : Value B) (ex : Option ℕ)
    {w : Value B}
    → get r s k ≡ some w
    → set_nx r s k v ex ≡ (s, false)
set_nx_taken r s k v ex taken = rw (taken, set_nx)
