-- ===== src/Access/Rbac/ListId.antt =====
-- apicrud/access.py, rbac_permissions: policies on `<resource>:{list_id}`.
use text.Mathlib.TextLemmas.{append_cancel_left}
use Prim.Native.String.{String}
use apicrud.Prelude.{
  true, false, Option, some, ◌≡◌, ◌≢◌, inl, inr, ◌==◌, text_eq, Bool-cases, eq_iff, ◌⧺◌,
}
use apicrud.Python.Result.{ok}
use apicrud.Python.Text.{show, in_text}
use apicrud.Python.Format.{no_braces}
use apicrud.Python.Regex.{is_plain, chop-append, re_fullmatch_plain}
use apicrud.Access.{Policy, AccessControl}
use apicrud.Access.Rbac.{match_id, resource_matches}
use apicrud.Access.Rbac.Templates.{format-list_id}

-- For a record of a list with an id, a policy on `<resource>:{list_id}` matches no request.
pub list_id_policy_is_dead :
    (acc : AccessControl) (i : String) (owner_uid : Option String) (res : String) (policy : Policy)
    → acc.resource ≡ some res
    → policy.resource ≡ res ⧺ ":{list_id}"
    → no_braces res ≡ true
    → is_plain (res ⧺ (":" ⧺ i)) ≡ true
    → in_text "uid" policy.resource ≡ false
    → in_text "eid" policy.resource ≡ false
    → i ≢ "None"
    → resource_matches acc (some i) owner_uid policy ≡ ok false
unfolding resource_matches match_id show
list_id_policy_is_dead acc i owner_uid res policy resource pattern braces plain no_uid no_eid
      other =
    let no_uid' = rw pattern at no_uid in
    let no_eid' = rw pattern at no_eid in
    rw (pattern, format-list_id (some i) owner_uid res braces)
      (rw (no_uid', no_eid', resource)
        (rw
          (re_fullmatch_plain (res ⧺ (":" ⧺ i)) (res ⧺ (":" ⧺ "None")) plain
            (chop-append res ":" "None"))
          (elim (Bool-cases ((res ⧺ (":" ⧺ i)) == (res ⧺ (":" ⧺ "None")))) [
            | inl same ↦ absurd (
                other (
                  append_cancel_left ":" i "None" (
                    append_cancel_left res (":" ⧺ i) (":" ⧺ "None")
                      ((eq_iff (res ⧺ (":" ⧺ i)) (res ⧺ (":" ⧺ "None"))).0 same))))
            | inr differs ↦ rw differs
          ])))
