-- ===== src/Access/Rbac/Special.antt =====
-- apicrud/access.py, rbac_permissions: the special case for principals `<res>-*`.
use Prim.Native.String.{String}
use text.Mathlib.TextLemmas.{cons-append, nil-append}
use apicrud.Prelude.{
  Bool, true, false, ◌&&◌, ◌||◌, Option, [], ◌∷◌, ◌≡◌, refl, inl, inr, ◌==◌, text_eq, char_eq,
  Bool-cases, arith, ◌∙◌, ap, subst, eq_iff, ◌⧺◌, option_eq,
}
use apicrud.Python.Result.{Exn, Result, ok, err, >>=-eq-ok, or_raise}
use apicrud.Python.Text.{show, replace, same_char}
use apicrud.Python.Format.{format}
use apicrud.Access.{Policy, AccessControl}
use apicrud.Access.Load.{RawPolicy, load_policy}
use apicrud.Access.Rbac.{special_case}

-- The text ends in `-*`.
unfoldable pub ends_in_dash_star : String → Bool
ends_in_dash_star String.[] = false
ends_in_dash_star (String.◌∷◌ c s) = (same_char c "-" && s == "*") || ends_in_dash_star s

dash_star-append : (s : String) → ends_in_dash_star (s ⧺ "-*") ≡ true
unfolding ends_in_dash_star
dash_star-append String.[] = refl
dash_star-append (String.◌∷◌ c s) = rw cons-append (ground (arith, dash_star-append s))

dot_star-append : (x : String) → ".*" ⧺ x ≡ String.◌∷◌ "." (String.◌∷◌ "*" x)
dot_star-append x =
    cons-append "." "*" x
    ∙ ap (λ (t : String). String.◌∷◌ "." t)
        (cons-append "*" "" x ∙ ap (λ (t : String). String.◌∷◌ "*" t) (nil-append x))

abbrev starts_with_star : String → Bool
starts_with_star String.[] = false
starts_with_star (String.◌∷◌ c s) = same_char c "*"

-- A replaced `*` never comes first.
replace_star-starts : (s : String) → starts_with_star (replace "*" ".*" s) ≡ false
unfolding replace
replace_star-starts String.[] = refl
replace_star-starts (String.◌∷◌ c s) = elim (Bool-cases (same_char c "*")) [
  | inl star ↦ rw star (rw dot_star-append)
  | inr other ↦ rw other other
]

replace_star-ne : (s : String) → (replace "*" ".*" s == "*") ≡ false
replace_star-ne s = elim (Bool-cases (replace "*" ".*" s == "*")) [
  | inl same ↦
      let e : replace "*" ".*" s ≡ "*" = (eq_iff (replace "*" ".*" s) "*").0 same in
      cc (replace_star-starts s, ap starts_with_star e)
  | inr other ↦ other
]

replace_star-no_dash : (s : String) → ends_in_dash_star (replace "*" ".*" s) ≡ false
unfolding replace ends_in_dash_star
replace_star-no_dash String.[] = refl
replace_star-no_dash (String.◌∷◌ c s) = elim (Bool-cases (same_char c "*")) [
  | inl star ↦ rw star (rw dot_star-append (ground (arith, replace_star-no_dash s)))
  | inr other ↦ rw other (ground (arith, replace_star-no_dash s, replace_star-ne s))
]

-- A principal that does not end in `-*` is not taken for a wildcard of a membership.
pub special_case_off :
    (acc : AccessControl) (membership id owner_uid : Option String) (policy : Policy)
    (role : String)
    → ends_in_dash_star policy.principal ≡ false
    → special_case acc membership id owner_uid policy role ≡ ok false
unfolding special_case
special_case_off acc membership id owner_uid policy role h =
    elim (Bool-cases (policy.principal == (show membership ⧺ "-*"))) [
      | inl same ↦ cc (
        h,
        ap ends_in_dash_star ((eq_iff policy.principal (show membership ⧺ "-*")).0 same),
        dash_star-append (show membership),
      )
      | inr other ↦ rw other
    ]

abbrev principal_of : Result Policy → String
principal_of (ok policy) = policy.principal
principal_of (err _) = ""

-- A policy that load_rbac returns never meets the special case for principals `<res>-*`: its `*`
-- has become `.*`.
pub special_case-load_policy :
    (acc : AccessControl) (membership id owner_uid : Option String) (res : String)
    (item : RawPolicy) (role : String) {policy : Policy}
    → load_policy res item ≡ ok policy
    → special_case acc membership id owner_uid policy role ≡ ok false
unfolding load_policy
special_case-load_policy acc membership id owner_uid res item role h =
    let (principal, _, rest) =
      >>=-eq-ok (or_raise (format [] item.principal) Exn.format_error) _ h in
    let (resource, _, e) =
      >>=-eq-ok (or_raise (format (("resource", res) ∷ []) item.resource) Exn.format_error) _
        rest in
    special_case_off acc membership id owner_uid _ role (
      subst (λ (t : String). ends_in_dash_star t ≡ false) (ap principal_of e)
        (replace_star-no_dash principal))
