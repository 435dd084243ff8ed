-- ===== src/Grants/Cached.antt =====
-- apicrud/grants.py, Grants.get and Grants.find: the cache, and the rows.
use apicrud.Prelude.{
  ℕ, true, Option, none, some, String, List, [], ◌∷◌, ◌≡◌, refl, ◌∙◌, if◌then◌else◌, ◌==◌, text_eq,
  option_eq, eq_iff, Bool-cases, inl, inr,
}
use apicrud.Python.Text.{truthy}
use apicrud.Python.Dict.{Dict}
use apicrud.Grants.{
  GrantValue, Cache, GrantRecord, live_grants, entry, loaded, chosen, get, uncache, GrantItem,
  item_named, item_or_default, find_items, is_skipped,
}

module _ (c : Cache) (now : ℕ) (records : Option String → List GrantRecord)
    (own_uid : Option String) (name uid : String) (s : c.State) where
  -- A user whose grants are in the cache is answered from there, whatever the table holds now.
  pub get_cached :
      (grants : Dict GrantValue)
      → truthy (some uid) ≡ true
      → c.find s (some uid) ≡ some grants
      → get c now records own_uid name (some uid) s
        ≡ (s, chosen c name grants (entry c s (some "defaults")))
  unfolding get loaded
  get_cached grants known there = rw known (rw there (rw there))

  -- After `uncache` the next `get` reads the table: the live records of the user come before the
  -- defaults.
  pub get-uncache :
      truthy (some uid) ≡ true
      → (get c now records own_uid name (some uid) (uncache c (some uid) s)).1
        ≡ chosen c name (live_grants now (records (some uid)) []) (
            entry c
              (c.keep (c.drop s (some uid)) (some uid) (live_grants now (records (some uid)) []))
              (some "defaults"))
  unfolding get loaded uncache
  get-uncache known =
      rw known (rw (c.find-drop s (some uid)) (rw (c.find-keep (c.drop s (some uid)) (some uid) _)))

abbrev name_or : String → Option GrantItem → String
name_or key none = key
name_or key (some row) = row.name

item_named-name : (key : String) (rows : List GrantItem) → name_or key (item_named key rows) ≡ key
unfolding item_named
item_named-name key [] = refl
item_named-name key (first ∷ rows) = elim (Bool-cases (first.name == key)) [
  | inl same ↦ rw same ((eq_iff first.name key).0 same)
  | inr other ↦ rw other (item_named-name key rows)
]

name-item_or_default :
    (uid : Option String) (rbac key : String) (value : GrantValue) (row : Option GrantItem)
    → (item_or_default uid rbac key value row).name ≡ name_or key row
name-item_or_default uid rbac key value none = refl
name-item_or_default uid rbac key value (some row) = refl

-- the names of the defaults that the filter lets pass
abbrev pub default_names : Option String → Dict GrantValue → List String
default_names name [] = []
default_names name ((key, value) ∷ defaults) =
    let rest = default_names name defaults in if is_skipped name key then rest else key ∷ rest

abbrev pub names : List GrantItem → List String
names [] = []
names (item ∷ items) = item.name ∷ names items

-- The answer for the grants endpoint has one row for each default that the filter lets pass, in their
-- order, whatever rows the table has.
pub names-find_items :
    (name uid : Option String) (rbac : String) (rows : List GrantItem) (defaults : Dict GrantValue)
    → names (find_items name uid rbac rows defaults) ≡ default_names name defaults
unfolding find_items
names-find_items name uid rbac rows [] = refl
names-find_items name uid rbac rows ((key, value) ∷ defaults) =
    elim (Bool-cases (is_skipped name key)) [
      | inl skipped ↦ rw skipped (names-find_items name uid rbac rows defaults)
      | inr kept ↦
          let same =
            name-item_or_default uid rbac key value (item_named key rows)
            ∙ item_named-name key rows in
          rw kept (rw (same, names-find_items name uid rbac rows defaults))
    ]
