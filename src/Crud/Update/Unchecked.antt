-- ===== src/Crud/Update/Unchecked.antt =====
-- apicrud/basic_crud.py, BasicCRUD.update: the lists of members and the permission.
use apicrud.Prelude.{
  ℕ, Bool, true, false, ◌||◌, Option, none, some, String, List, [], ◌∷◌, ◌≡◌, refl, sym, ◌∙◌, ap,
  Char, ◌==◌, text_eq, number_eq,
}
use apicrud.Python.Result.{Result, ok, err}
use apicrud.Python.Dict.{Dict, lookup, insert, remove, lookup-insert}
use apicrud.Python.PySet.{contains}
use apicrud.Access.{Row}
use apicrud.Database.{Tables, Session}
use apicrud.Crud.{Response, Controller, Item, text, ids, Outcome, may, denied}
use apicrud.Crud.Related.{exceeds, update_related}
use apicrud.Crud.Related.Match.{related-update_related}
use apicrud.Crud.Update.{
  continued, renames, parsed_expiry, with_expiry, prepared, without_totp, after_related, relate_one,
  relate_loop, write_permitted, write_body, update_prepared, update,
}
use apicrud.Crud.Update.Safety.{update_related-Same}

-- the code of an answer, and 0 for an exception
abbrev code_of : Result Response → ℕ
code_of (err e) = 0
code_of (ok response) = response.code

module _ (db : Tables) (exists_in : String → String → Bool)
    (strptime : Bool → String → Option String) (now : String) (c : Controller) (id attr : String)
    (access : Char) (limits : Dict ℕ) (outcome : Outcome) (s : Session db.State) (row : Row)
    (wanted : List String) (body : Dict Item) where
  plain_body :
      lookup "expires" body ≡ none
      → prepared db exists_in strptime now body ≡ some (insert "modified" (text now) body)
  unfolding prepared parsed_expiry with_expiry
  plain_body no_expiry = rw (lookup-insert "modified" "expires" (text now) body) (rw no_expiry)

  after_ok :
      (left : Dict Item) (p : Session db.State × Result Response) (said : Option String)
      (message : String)
      → p.1 ≡ ok (record { code = 200; id = said; message = message })
      → after_related db exists_in id left p ≡ continued p.0 left
  unfolding after_related
  after_ok left (t, err e) said message h = cc
  after_ok left (t, ok response) said message h =
      let code : response.code ≡ 200 = ap code_of h in rw code

  refused :
      (t : Session db.State) (left : Dict Item)
      → may c access (db.row t.now id) ≡ ok false
      → write_body db id c access outcome (continued t left) ≡ (t, ok (denied id))
  unfolding write_body write_permitted
  refused t left no_access = rw no_access

  abbrev outcome_of_related : Session db.State × Result Response
  outcome_of_related = update_related db (exists_in attr) id attr wanted (lookup attr limits) s

  related_first :
      c.rest_related ≡ attr ∷ []
      → lookup "id" body ≡ none
      → lookup "expires" body ≡ none
      → lookup "totp" body ≡ none
      → lookup attr body ≡ some (ids wanted)
      → ("modified" == attr) ≡ false
      → update db exists_in strptime now c id body access limits outcome s
        ≡ write_body db id c access outcome (
            after_related db exists_in id
              (remove attr (insert "modified" (text now) body))
              outcome_of_related)
  unfolding update update_prepared renames without_totp relate_loop relate_one
  related_first only no_id no_expiry no_totp listed other = rw no_id (
      rw (plain_body no_expiry) (
        rw (lookup-insert "modified" "totp" (text now) body) (
          rw (no_totp, only)
            (rw (lookup-insert "modified" attr (text now) body) (rw (other, listed))))))

  -- A caller who may not update a record still replaces the members of its association lists: the
  -- answer is 403, and the new members are saved.
  pub members_unchecked :
      s.now ≡ s.saved
      → c.rest_related ≡ attr ∷ []
      → (lookup "id" body ≡ none) × (lookup "expires" body ≡ none) × (lookup "totp" body ≡ none)
      → lookup attr body ≡ some (ids wanted)
      → ("modified" == attr) ≡ false
      → exceeds (lookup attr limits) wanted ≡ false
      → db.row s.now id ≡ some row
      → ((m : String)
          → (contains m wanted || contains m (db.related s.now id attr)) ≡ true
          → exists_in attr m ≡ true)
      → may c access (some row) ≡ ok false
      → ((update db exists_in strptime now c id body access limits outcome s).1 ≡ ok (denied id))
        × ((n : String)
            → contains n (
                db.related
                  (update db exists_in strptime now c id body access limits outcome s).0.saved
                  id
                  attr)
              ≡ contains n wanted)
  members_unchecked fresh only absent listed other within found all no_access =
      let (done, members) =
        related-update_related db (exists_in attr) id attr wanted (lookup attr limits) s row within
          found all in
      let kept =
        update_related-Same db id s.now (exists_in attr) id attr wanted (lookup attr limits) s
          (refl, ap (λ (u : db.State). db.row u id) (sym fresh)) in
      let e =
        related_first only absent.0 absent.1 absent.2 listed other
        ∙ ap (write_body db id c access outcome) (after_ok _ outcome_of_related (some id) "ok" done)
        ∙ refused outcome_of_related.0 _
            (ap (λ (v : Option Row). may c access v) (kept.0 ∙ found) ∙ no_access) in
      rw e (refl, members)
