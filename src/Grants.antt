-- ===== src/Grants.antt =====
-- apicrud/grants.py: class Grants. The proofs are in the module below.
pub mod Cached
use apicrud.Prelude.{
  ℕ, Bool, true, false, not, ◌&&◌, ◌||◌, Option, none, some, String, ◌⧺◌, List, [], ◌∷◌, ◌≡◌, ltb,
  length, if◌then◌else◌, ◌==◌, text_eq, number_eq, option_eq,
}
use apicrud.Prelude.Int.{ℤ, pos, negsuc}
use apicrud.Python.Result.{Exn, Result, ok, err, ◌>>=◌, or_raise}
use apicrud.Python.Text.{truthy, show}
use apicrud.Python.Number.{parse_int, show_int}
use apicrud.Python.Dict.{Dict, lookup, insert}

-- what Grants.get returns: a number, another text, or None
pub data Limit : Type 0 where
  undefined : Limit
  number : ℤ → Limit
  word : String → Limit

-- the truth value of a limit
unfoldable pub is_set : Limit → Bool
is_set undefined = false
is_set (number (pos n)) = not (n == 0)
is_set (number (negsuc n)) = true
is_set (word w) = not (w == "")

-- a value in the configuration or in the grants table
pub data GrantValue : Type 0 where
  as_number : ℤ → GrantValue
  as_text : String → GrantValue

-- int(ret, 0), or ret where that raises a TypeError or a ValueError
unfoldable pub limit_of : Option GrantValue → Limit
limit_of none = undefined
limit_of (some (as_number z)) = number z
limit_of (some (as_text t)) = elim (parse_int t) [ none ↦ word t | some z ↦ number z ]

-- TTLCache, which may forget an entry at any later time, but not at once
pub record Cache : Type 1 where
  pub State : Type 0
  pub find : State → Option String → Option (Dict GrantValue)
  pub keep : State → Option String → Dict GrantValue → State
  pub drop : State → Option String → State
  pub find-keep :
      (s : State) (k : Option String) (v : Dict GrantValue) → find (keep s k v) k ≡ some v
  pub find-drop : (s : State) (k : Option String) → find (drop s k) k ≡ none

-- an active record of the grants table, by the time at which it expires
pub record GrantRecord : Type 0 where
  pub name : String
  pub value : GrantValue
  pub expires : Option ℕ

-- not rec.expires or rec.expires > utils.utcnow()
abbrev pub is_live : ℕ → Option ℕ → Bool
is_live now none = true
is_live now (some expires) = ltb now expires

-- `for rec in records`, on the dict so far
unfoldable pub live_grants : ℕ → List GrantRecord → Dict GrantValue → Dict GrantValue
live_grants now [] grants = grants
live_grants now (rec ∷ records) grants =
    live_grants now records
      (if is_live now rec.expires then insert rec.name rec.value grants else grants)

module _ (c : Cache) where
  -- self._cache[key], where the key may be gone
  abbrev pub entry : c.State → Option String → Result (Dict GrantValue)
  entry s key = or_raise (c.find s key) Exn.key_error

  -- `if uid not in self._cache`
  unfoldable pub loaded :
      ℕ
      → (Option String → List GrantRecord)
      → Option String
      → Option (Dict GrantValue)
      → c.State
      → c.State
  loaded now records uid (some grants) s = s
  loaded now records uid none s = c.keep s uid (live_grants now (records uid) [])

  -- the grant of the user, or the default
  unfoldable pub chosen : String → Dict GrantValue → Result (Dict GrantValue) → Result Limit
  chosen name grants defaults = elim (lookup name grants) [
    | some value ↦ ok (limit_of (some value))
    | none ↦ defaults >>= (λ d. ok (limit_of (lookup name d)))
  ]

  unfoldable pub get :
      ℕ
      → (Option String → List GrantRecord)
      → (own_uid : Option String) → String
      → Option String
      → c.State
      → c.State × Result Limit
  get now records own_uid name uid s =
      let key = if truthy uid then uid else own_uid in
      let s' = loaded now records key (c.find s key) s in
      (s', (do grants ← entry s' key; chosen name grants (entry s' (some "defaults"))))

  unfoldable pub uncache : Option String → c.State → c.State
  uncache uid s = c.drop s uid

  unfoldable pub load_defaults : Dict GrantValue → c.State → c.State
  load_defaults defaults s = c.keep s (some "defaults") defaults

-- one row of the answer for the grants endpoint
pub record GrantItem : Type 0 where
  pub id : String
  pub uid : Option String
  pub name : String
  pub value : String
  pub rbac : String

-- str(val)
abbrev pub show_value : GrantValue → String
show_value (as_number z) = show_int z
show_value (as_text t) = t

-- `for row in crud_results[0]['items']: if row['name'] == key: …`
unfoldable pub item_named : String → List GrantItem → Option GrantItem
item_named key [] = none
item_named key (row ∷ rows) = if row.name == key then some row else item_named key rows

abbrev pub item_or_default :
    Option String → String → String → GrantValue → Option GrantItem → GrantItem
item_or_default uid rbac key value (some row) = row
item_or_default uid rbac key value none = record {
  id = show uid ⧺ (":" ⧺ key);
  uid = uid;
  name = key;
  value = show_value value;
  rbac = rbac;
}

-- `if name and key != name: continue`
abbrev pub is_skipped : Option String → String → Bool
is_skipped name key = truthy name && not (name == some key)

-- `for key, val in self._cache['defaults'].items()`
unfoldable pub find_items :
    Option String → Option String → String → List GrantItem → Dict GrantValue → List GrantItem
find_items name uid rbac rows [] = []
find_items name uid rbac rows ((key, value) ∷ defaults) =
    let rest = find_items name uid rbac rows defaults in
    if is_skipped name key
    then rest
    else item_or_default uid rbac key value (item_named key rows) ∷ rest
