-- ===== src/Crud/Prepare/Limited.antt =====
-- apicrud/basic_crud.py, BasicCRUD.create: how many records a person may have.
use apicrud.Prelude.{
  ℕ, Bool, true, false, not, ◌&&◌, Option, none, some, String, List, [], ◌∷◌, ◌≡◌, refl, sym, ap,
  ◌∙◌, arith, if_cases, if◌then◌else◌, ◌==◌, text_eq,
}
use apicrud.Python.Result.{Result, ok, err, ◌>>=◌}
use apicrud.Python.Text.{truthy}
use apicrud.Python.Dict.{Dict, lookup, insert, remove, lookup-insert, lookup-remove}
use apicrud.Python.PySet.{contains}
use apicrud.Grants.{Limit}
use apicrud.Crud.{Controller, Item, text, is_true}
use apicrud.Crud.Checks.{is_present}
use apicrud.Crud.Prepare.{
  Model, Making, Prepared, inserts, item_of, grant_name, at_limit, over_limit, unless_over,
  unless_long, without_related, with_apikey, related_checked, with_status, with_limit,
  with_category, categorized,
}

inserted : {body columns : Dict Item} → inserts body ≡ inserts columns → body ≡ columns
inserted h = cc h

unless_long-some :
    (test : Result Bool) (rest : Result (Option (Dict Item))) (body : Dict Item)
    → unless_long test rest ≡ ok (some body)
    → rest ≡ ok (some body)
unless_long-some (err e) rest body h = absurd (cc)
unless_long-some (ok true) rest body h = absurd (cc)
unless_long-some (ok false) rest body h = h

without_related_uid :
    (limits : Dict ℕ) (attrs : List String) (body body' : Dict Item)
    → contains "uid" attrs ≡ false
    → without_related limits attrs body ≡ ok (some body')
    → lookup "uid" body' ≡ lookup "uid" body
unfolding without_related contains
without_related_uid limits [] body body' apart h =
    let same : body ≡ body' = cc h in ap (λ (d : Dict Item). lookup "uid" d) (sym same)
without_related_uid limits (attr ∷ attrs) body body' apart h =
    let first : (attr == "uid") ≡ false = ground arith in
    let rest : contains "uid" attrs ≡ false = unfold contains in ground arith in
    without_related_uid limits attrs (remove attr body) body' rest (unless_long-some _ _ body' h)
    ∙ lookup-remove attr "uid" body
    ∙ rw first

module _ (c : Controller) (model : Model) (m : Making) (limits : Dict ℕ) where
  kept_uid :
      (has_related : Bool) (body : Dict Item)
      → contains "uid" c.rest_related ≡ false
      → (body' : Dict Item)
      → (if has_related then without_related limits c.rest_related body else ok (some body))
        ≡ ok (some body')
      → lookup "uid" body' ≡ lookup "uid" body
  kept_uid true body apart body' h = without_related_uid limits c.rest_related body body' apart h
  kept_uid false body apart body' h =
      let same : body ≡ body' = cc h in ap (λ (d : Dict Item). lookup "uid" d) (sym same)

  -- the person of the body has fewer records than the grant, where the resource has one
  abbrev pub Limited : Dict Item → Type 0
  Limited body =
      (limit : Limit) × (m.limit ≡ ok limit) × (over_limit c model m limits body limit ≡ ok false)

  -- over_limit reads the person only
  pub over_limit_uid :
      (body body' : Dict Item)
      → lookup "uid" body ≡ lookup "uid" body'
      → Limited body
      → Limited body'
  unfolding over_limit
  over_limit_uid body body' same (limit, given, within) = (
    limit,
    given,
    ap
          (λ (uid : Option Item).
            if contains (grant_name c.resource) m.default_grants
            then at_limit (m.counted uid) limit
            else ok false)
          (sym same)
        ∙ within,
  )

  with_apikey_uid :
      (body columns : Dict Item)
      → with_apikey c model m limits body ≡ inserts columns
      → lookup "uid" columns ≡ lookup "uid" body
  unfolding with_apikey
  with_apikey_uid body columns =
      if_cases (λ (p : Prepared). p ≡ inserts columns → lookup "uid" columns ≡ lookup "uid" body)
        (c.resource == "apikey") _ _
        (λ apikey.
          if_cases
            (λ (p : Prepared). p ≡ inserts columns → lookup "uid" columns ≡ lookup "uid" body)
            (is_present (lookup "name" body)) _ _
            (λ named h.
              let same = inserted h in
              ap (λ (d : Dict Item). lookup "uid" d) (sym same)
              ∙ lookup-insert "hashvalue" "uid" (text m.key_hash)
                  (insert "prefix" (text m.key_prefix) body)
              ∙ lookup-insert "prefix" "uid" (text m.key_prefix) body)
            (λ unnamed h. absurd (cc)))
        (λ other h. ap (λ (d : Dict Item). lookup "uid" d) (sym (inserted h)))

  related_checked_uid :
      (body columns : Dict Item) (checked : Result (Option (Dict Item)))
      → ((body' : Dict Item) → checked ≡ ok (some body') → lookup "uid" body' ≡ lookup "uid" body)
      → related_checked c model m limits checked ≡ inserts columns
      → lookup "uid" columns ≡ lookup "uid" body
  unfolding related_checked
  related_checked_uid body columns (err e) keeps h = absurd (cc)
  related_checked_uid body columns (ok none) keeps h = absurd (cc)
  related_checked_uid body columns (ok (some body')) keeps h =
      with_apikey_uid body' columns h ∙ keeps body' refl

  unless_over-inserts :
      (body columns : Dict Item) (test : Result Bool)
      → contains "uid" c.rest_related ≡ false
      → unless_over c model m limits body test ≡ inserts columns
      → (test ≡ ok false) × (lookup "uid" columns ≡ lookup "uid" body)
  unfolding unless_over
  unless_over-inserts body columns (err e) apart h = absurd (cc)
  unless_over-inserts body columns (ok true) apart h = absurd (cc)
  unless_over-inserts body columns (ok false) apart h =
      (refl, related_checked_uid body columns _ (kept_uid model.has_related body apart) h)

  tested :
      (body : Dict Item) (given : Result Limit)
      → (given >>= (λ limit. over_limit c model m limits body limit)) ≡ ok false
      → (limit : Limit) × (given ≡ ok limit) × (over_limit c model m limits body limit ≡ ok false)
  tested body (err e) h = absurd (cc)
  tested body (ok limit) h = (limit, refl, h)

  lookup-with_status :
      (body : Dict Item) → lookup "uid" (with_status c model m limits body) ≡ lookup "uid" body
  unfolding with_status
  lookup-with_status body =
      if_cases (λ (d : Dict Item). lookup "uid" d ≡ lookup "uid" body)
        (model.has_status && not (is_present (lookup "status" body))) _ _
        (λ missing. lookup-insert "status" "uid" (text "active") body) (λ there. refl)

  with_limit-Limited :
      (body columns : Dict Item)
      → contains "uid" c.rest_related ≡ false
      → with_limit c model m limits body ≡ inserts columns
      → Limited body × (lookup "uid" columns ≡ lookup "uid" body)
  unfolding with_limit
  with_limit-Limited body columns apart h =
      let (within, uid) = unless_over-inserts _ columns _ apart h in
      (
        over_limit_uid (with_status c model m limits body) body (lookup-with_status body)
            (tested _ m.limit within),
        uid ∙ lookup-with_status body,
      )

  -- the body that goes on has the person of the columns, who has not reached the grant
  abbrev Kept : Dict Item → Dict Item → Type 0
  Kept body columns = Limited body × (lookup "uid" columns ≡ lookup "uid" body)

  with_category-Limited :
      (body columns : Dict Item) (category : Result (Option String))
      → contains "uid" c.rest_related ≡ false
      → with_category c model m limits body category ≡ inserts columns
      → Kept body columns
  unfolding with_category
  with_category-Limited body columns (err e) apart h = absurd (cc)
  with_category-Limited body columns (ok category) apart h =
      let (within, uid) = with_limit-Limited _ columns apart h in
      let same = lookup-insert "category_id" "uid" (item_of category) body in
      (over_limit_uid (insert "category_id" (item_of category) body) body same within, uid ∙ same)

  pub categorized-Limited :
      (body columns : Dict Item)
      → contains "uid" c.rest_related ≡ false
      → categorized c model m limits body ≡ inserts columns
      → Kept body columns
  unfolding categorized
  categorized-Limited body columns apart =
      if_cases (λ (p : Prepared). p ≡ inserts columns → Kept body columns)
        (not (is_true (lookup "category_id" body)) && model.has_category) _ _
        (λ missing.
          if_cases (λ (p : Prepared). p ≡ inserts columns → Kept body columns)
            (truthy c.acc.account_id) _ _
            (λ known. with_category-Limited body columns m.account_category apart)
            (λ unknown.
              if_cases (λ (p : Prepared). p ≡ inserts columns → Kept body columns)
                (is_true (lookup "event_id" body)) _ _
                (λ event. with_category-Limited body columns m.event_category apart)
                (λ no_event h. absurd (cc))))
        (λ there. with_limit-Limited body columns apart)
