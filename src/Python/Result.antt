-- ===== src/Python/Result.antt =====
-- Exceptions as values: what the source raises, catches, or lets its callers see.
use apicrud.Prelude.{Option, none, some, ◌≡◌, refl}

pub data Exn : Type 0 where
  key_error no_result_found format_error type_error value_error attribute_error : Exn
  assertion_error timeout_error connection_error unpack_error index_error : Exn
  response_error data_error unbound_error : Exn

-- what a call gives back: the exception that it raised, or its value
pub data Result {ℓ} (T : Type ℓ) : Type ℓ where
  err : Exn → Result T
  ok : T → Result T

infixl 5 ◌>>=◌
abbrev pub ◌>>=◌ {ℓ κ} : {S : Type ℓ} {T : Type κ} → Result S → (S → Result T) → Result T
err raised >>= rest = err raised
ok value >>= rest = rest value

-- a lookup that raises where there is nothing
abbrev pub or_raise {ℓ} : {T : Type ℓ} → Option T → Exn → Result T
or_raise (some value) e = ok value
or_raise none e = err e

-- A sequence that returns has returned from its first part.
pub >>=-eq-ok {ℓ κ} :
    {S : Type ℓ} {T : Type κ} (first : Result S) (rest : S → Result T) {value : T}
    → (first >>= rest) ≡ ok value
    → (between : S) × (first ≡ ok between) × (rest between ≡ ok value)
>>=-eq-ok (err raised) rest h = cc
>>=-eq-ok (ok between) rest h = (between, refl, h)
