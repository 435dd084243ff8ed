-- ===== src/Access/Role.antt =====
-- apicrud/access.py: _parse_id, and the names of the roles that get_roles of
-- apicrud/session_auth.py builds.
use Prim.Native.String.{String}
use text.Mathlib.TextLemmas.{cons-append, nil-append}
use apicrud.Prelude.{
  true, Option, none, some, ◌⧺◌, List, [], ◌∷◌, ◌++◌, ◌≡◌, refl, ap, ◌∙◌, if◌then◌else◌, ◌==◌,
  text_eq, eq_refl,
}
use apicrud.Python.Text.{split, join, free, split-append_left, split-append_right, join-split}

-- xs[:-1]
unfoldable pub drop_last {ℓ} : {A : Type ℓ} → List A → List A
drop_last [] = []
drop_last (x ∷ []) = []
drop_last (x ∷ y ∷ xs) = x ∷ drop_last (y ∷ xs)

-- `if x and x[0] == resource: return '-'.join(x[1:-1])`
abbrev middle : String → List String → Option String
middle resource [] = none
middle resource (x ∷ xs) = if x == resource then some (join "-" (drop_last xs)) else none

unfoldable pub parse_id : String → String → Option String
parse_id role resource = middle resource (split "-" role)

-- '%s-%s-%s' % (resource, id, level)
unfoldable pub role_name : String → String → String → String
role_name resource id level = resource ⧺ ("-" ⧺ (id ⧺ ("-" ⧺ level)))

drop_last-append {ℓ} : {A : Type ℓ} (xs : List A) (x : A) → drop_last (xs ++ x ∷ []) ≡ xs
unfolding drop_last
drop_last-append [] x = refl
drop_last-append (y ∷ []) x = refl
drop_last-append (y ∷ z ∷ xs) x = ap (λ (t : List _). y ∷ t) (drop_last-append (z ∷ xs) x)

dash-append : (t : String) → "-" ⧺ t ≡ String.◌∷◌ "-" t
dash-append t = cons-append "-" "" t ∙ ap (λ (u : String). String.◌∷◌ "-" u) (nil-append t)

-- The id of a role is read back, also where it contains dashes, if neither the resource nor the
-- level contains one.
pub parse_id-role_name :
    (resource id level : String)
    → free "-" resource ≡ true
    → free "-" level ≡ true
    → parse_id (role_name resource id level) resource ≡ some id
unfolding parse_id role_name
parse_id-role_name resource id level h k =
    rw (dash-append level, dash-append (id ⧺ String.◌∷◌ "-" level))
      (rw (split-append_left "-" resource (id ⧺ String.◌∷◌ "-" level) h) (
        rw (split-append_right "-" id level k, eq_refl resource)
          (ap some (ap (join "-") (drop_last-append (split "-" id) level) ∙ join-split "-" id))))
