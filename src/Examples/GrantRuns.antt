-- ===== src/Examples/GrantRuns.antt =====
-- Grants from a cache that keeps everything.
use apicrud.Prelude.{
  true, Option, none, some, String, List, [], ◌∷◌, ◌≡◌, refl, if◌then◌else◌, text_eq, option_eq,
  option_beq, option_beq_iff,
}
use apicrud.Prelude.Int.{pos}
use apicrud.Python.Result.{ok}
use apicrud.Python.Text.{truthy}
use apicrud.Python.Number.{parse_int}
use apicrud.Python.Dict.{Dict, lookup, insert}
use apicrud.Grants.{
  number, GrantValue, as_number, as_text, limit_of, Cache, GrantRecord, live_grants, loaded, chosen,
  get,
}

option_refl : (k : Option String) → option_beq k k ≡ true
option_refl k = (option_beq_iff k k).1 refl

abbrev Kept : Type 0
Kept = Option String → Option (Dict GrantValue)

kept-same :
    (s : Kept) (k : Option String) (v : Option (Dict GrantValue))
    → (if option_beq k k then v else s k) ≡ v
kept-same s k v = rw (option_refl k)

abbrev everything : Cache
everything = record {
  State = Kept;
  find = λ s k. s k;
  keep = λ s k v j. if option_beq k j then some v else s j;
  drop = λ s k j. if option_beq k j then none else s j;
  find-keep = λ s k v. kept-same s k (some v);
  find-drop = λ s k. kept-same s k none;
}

abbrev defaults : Dict GrantValue
defaults = ("contacts", as_number (pos 12)) ∷ ("ratelimit", as_number (pos 300)) ∷ []

abbrev start : Kept
start key = if option_beq key (some "defaults") then some defaults else none

-- one grant that has expired, and one that has not
abbrev granted : Option String → List GrantRecord
granted uid =
    record { name = "contacts"; value = as_text "0x20"; expires = none }
    ∷ record { name = "ratelimit"; value = as_text "9"; expires = some 50 }
    ∷ []

loaded_grant :
    (get everything 100 granted none "contacts" (some "u-1") start).1 ≡ ok (number (pos 32))
unfolding get loaded chosen live_grants limit_of lookup insert truthy parse_int
loaded_grant = refl

expired_grant :
    (get everything 100 granted none "ratelimit" (some "u-1") start).1 ≡ ok (number (pos 300))
unfolding get loaded chosen live_grants limit_of lookup insert truthy parse_int
expired_grant = refl
