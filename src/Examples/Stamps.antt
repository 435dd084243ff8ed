-- ===== src/Examples/Stamps.antt =====
-- Tokens that count their seconds, as an instance of the serializer.
use Prim.Native.String.{String}
use apicrud.Prelude.{
  ℕ, zero, suc, ◌+◌, ◌-◌, ◌≤◌, Option, none, some, ◌≡◌, arith, leb, if◌then◌else◌, ◌==◌, char_eq,
}
use apicrud.Confirmation.{Serializer}

-- the second of a token, as that many zeros before a one
abbrev pub stamp : ℕ → String → String
stamp zero payload = String.◌∷◌ "1" payload
stamp (suc n) payload = String.◌∷◌ "0" (stamp n payload)

abbrev pub unstamp : ℕ → ℕ → String → Option String
unstamp now max_age String.[] = none
unstamp now max_age (String.◌∷◌ c s) =
    let rest = unstamp (now - 1) max_age s in
    if c == "0" then rest else if leb now max_age then some s else none

pub unstamp-stamp :
    (made age max_age : ℕ) (payload : String)
    → age ≤ max_age
    → unstamp (made + age) max_age (stamp made payload) ≡ some payload
unstamp-stamp zero age max_age payload fit = ground arith
unstamp-stamp (suc n) age max_age payload fit =
    let less : suc n + age - 1 ≡ n + age = omega arith in
    rw (less) (unstamp-stamp n age max_age payload fit)

abbrev pub stamps : Serializer
stamps = record { dumps = stamp; loads = unstamp; loads-dumps = unstamp-stamp }
