-- ===== src/Crud/Update/Safety.antt =====
-- apicrud/basic_crud.py, BasicCRUD.update: which rows it changes.
use apicrud.Prelude.{
  ℕ, Bool, true, false, Option, none, some, String, List, [], ◌∷◌, ◌≡◌, ◌⊎◌, inl, inr, refl, sym,
  ◌∙◌, ap, Char, ◌==◌, text_eq, eq_iff, Bool-cases, if_cases, number_eq,
}
use apicrud.Python.Result.{Exn, Result, ok, err}
use apicrud.Python.Dict.{Dict, lookup}
use apicrud.Access.{Row}
use apicrud.Database.{Tables, Session}
use apicrud.Crud.{
  Response, Controller, Item, null, text, flag, ids, chars_of, columns_of, Outcome, fine, integrity,
  broken, may,
}
use apicrud.Crud.Related.{
  exceeds, relate_all, unrelate_all, linked, unlink_then, change_members, update_found,
  update_related,
}
use apicrud.Crud.Update.{
  Flow, returned, raised, continued, renames, prepared, after_related, relate_one, relate_loop,
  write_row, write_permitted, write_body, update_prepared, update,
}

module _ (db : Tables) (exists_in : String → Bool) (id attr j : String) where
  row-relate_all :
      (ms : List String) (t : db.State)
      → db.row (relate_all db exists_in id attr ms t).0 j ≡ db.row t j
  unfolding relate_all
  row-relate_all [] t = refl
  row-relate_all (m ∷ ms) t =
      if_cases (λ (p : db.State × Result (Unit {0})). db.row p.0 j ≡ db.row t j) (exists_in m)
        (relate_all db exists_in id attr ms (db.relate t id attr m)) (t, err Exn.no_result_found)
        (λ _. row-relate_all ms (db.relate t id attr m) ∙ db.row-relate t id attr m j) (λ _. refl)

  row-unrelate_all :
      (ms : List String) (t : db.State)
      → db.row (unrelate_all db exists_in id attr ms t).0 j ≡ db.row t j
  unfolding unrelate_all
  row-unrelate_all [] t = refl
  row-unrelate_all (m ∷ ms) t =
      if_cases (λ (p : db.State × Result (Unit {0})). db.row p.0 j ≡ db.row t j) (exists_in m)
        (unrelate_all db exists_in id attr ms (db.unrelate t id attr m))
        (t, err Exn.no_result_found)
        (λ _. row-unrelate_all ms (db.unrelate t id attr m) ∙ db.row-unrelate t id attr m j)
        (λ _. refl)

  row-unlink_then :
      (removed : List String) (p : db.State × Result (Unit {0}))
      → db.row (unlink_then db exists_in id attr removed p).0 j ≡ db.row p.0 j
  unfolding unlink_then
  row-unlink_then removed (t, err e) = refl
  row-unlink_then removed (t, ok u) = row-unrelate_all removed t

  row-change_members :
      (current wanted : List String) (t : db.State)
      → db.row (change_members db exists_in id attr current wanted t).0 j ≡ db.row t j
  unfolding change_members
  row-change_members current wanted t = row-unlink_then _ _ ∙ row-relate_all _ t

-- a session in which the row is as in some tables, both now and saved
abbrev pub Same : (db : Tables) → String → db.State → Session db.State → Type 0
Same db j t s = (db.row s.now j ≡ db.row t j) × (db.row s.saved j ≡ db.row t j)

module _ (db : Tables) (j : String) (t : db.State) where
  module _ (exists_in : String → Bool) (id attr : String) where
    linked-Same :
        (u : db.State) (result : Result (Unit {0})) (s : Session db.State)
        → db.row u j ≡ db.row t j
        → Same db j t s
        → Same db j t (linked db exists_in id attr u result s).0
    linked-Same u (err e) s h same = (h, same.1)
    linked-Same u (ok v) s h same = (h, h)

    update_found-Same :
        (found : Option Row) (wanted : List String) (s : Session db.State)
        → Same db j t s
        → Same db j t (update_found db exists_in id attr found wanted s).0
    unfolding update_found
    update_found-Same none wanted s same = same
    update_found-Same (some row) wanted s same =
        linked-Same _ _ s (row-change_members db exists_in id attr j _ wanted s.now ∙ same.0) same

    pub update_related-Same :
        (wanted : List String) (limit : Option ℕ) (s : Session db.State)
        → Same db j t s
        → Same db j t (update_related db exists_in id attr wanted limit s).0
    unfolding update_related
    update_related-Same wanted limit s same = elim (Bool-cases (exceeds limit wanted)) [
      | inl over ↦ rw over same
      | inr within ↦ rw within (update_found-Same (db.row s.now id) wanted s same)
    ]

  abbrev FlowSame : Flow db.State → Type 0
  FlowSame (returned s response) = Same db j t s
  FlowSame (raised s e) = Same db j t s
  FlowSame (continued s body) = Same db j t s

  module _ (exists_in : String → String → Bool) (id : String) (limits : Dict ℕ) where
    after_related-FlowSame :
        (body : Dict Item) (p : Session db.State × Result Response)
        → Same db j t p.0
        → FlowSame (after_related db exists_in id body p)
    unfolding after_related
    after_related-FlowSame body (s, err e) same = same
    after_related-FlowSame body (s, ok response) same =
        if_cases FlowSame (response.code == 200) _ _ (λ _. same) (λ _. same)

    relate_one-FlowSame :
        (attr : String) (item : Option Item) (body : Dict Item) (s : Session db.State)
        → Same db j t s
        → FlowSame (relate_one db exists_in id limits attr item body s)
    unfolding relate_one
    relate_one-FlowSame attr none body s same = same
    relate_one-FlowSame attr (some null) body s same = same
    relate_one-FlowSame attr (some (text x)) body s same =
        after_related-FlowSame _ _
          (update_related-Same (exists_in attr) id attr (chars_of x) (lookup attr limits) s same)
    relate_one-FlowSame attr (some (flag b)) body s same = same
    relate_one-FlowSame attr (some (ids members)) body s same =
        after_related-FlowSame _ _
          (update_related-Same (exists_in attr) id attr members (lookup attr limits) s same)

    relate_loop-FlowSame :
        (attrs : List String) (flow : Flow db.State)
        → FlowSame flow
        → FlowSame (relate_loop db exists_in id limits attrs flow)
    unfolding relate_loop
    relate_loop-FlowSame [] flow same = same
    relate_loop-FlowSame (attr ∷ attrs) (returned s response) same = same
    relate_loop-FlowSame (attr ∷ attrs) (raised s e) same = same
    relate_loop-FlowSame (attr ∷ attrs) (continued s body) same =
        relate_loop-FlowSame attrs _ (relate_one-FlowSame attr (lookup attr body) body s same)

  module _ (c : Controller) (id : String) (access : Char) where
    -- the saved row is as before, or it is the record's and the caller may write it
    abbrev pub Written : db.State → Type 0
    Written u = (db.row u j ≡ db.row t j) ⊎ ((may c access (db.row t j) ≡ ok true) × (id ≡ j))

    write_row-Written :
        (outcome : Outcome) (cols : Option (Dict (Option String))) (s : Session db.State)
        → may c access (db.row s.now id) ≡ ok true
        → Same db j t s
        → Written (write_row db id outcome cols s).0.saved
    unfolding write_row
    write_row-Written outcome none s permitted same = inl same.1
    write_row-Written integrity (some cols) s permitted same = inl same.1
    write_row-Written broken (some cols) s permitted same = inl same.1
    write_row-Written fine (some cols) s permitted same = elim (Bool-cases (id == j)) [
      | inl own ↦
          let e = (eq_iff id j).0 own in
          inr (
            ap (λ (found : Option Row). may c access found) (sym same.0 ∙ ap (db.row s.now) (sym e))
                ∙ permitted,
            e,
          )
      | inr other ↦ inl (db.row-update s.now id cols j ∙ rw other same.0)
    ]

    pub write_permitted-Written :
        (outcome : Outcome) (body : Dict Item) (permission : Result Bool) (found : Option Row)
        (s : Session db.State)
        → may c access (db.row s.now id) ≡ permission
        → Same db j t s
        → Written (write_permitted db id outcome body permission found s).0.saved
    unfolding write_permitted
    write_permitted-Written outcome body (err e) found s h same = inl same.1
    write_permitted-Written outcome body (ok false) found s h same = inl same.1
    write_permitted-Written outcome body (ok true) none s h same = inl same.1
    write_permitted-Written outcome body (ok true) (some row) s h same =
        write_row-Written outcome (columns_of body) s h same

    write_body-Written :
        (outcome : Outcome) (flow : Flow db.State)
        → FlowSame flow
        → Written (write_body db id c access outcome flow).0.saved
    unfolding write_body
    write_body-Written outcome (returned s response) same = inl same.1
    write_body-Written outcome (raised s e) same = inl same.1
    write_body-Written outcome (continued s body) same =
        write_permitted-Written outcome body _ (db.row s.now id) s refl same

module _ (db : Tables) (exists_in : String → String → Bool)
    (strptime : Bool → String → Option String) (now : String) (c : Controller) (id : String)
    (access : Char) (limits : Dict ℕ) (outcome : Outcome) (s : Session db.State) (j : String) where
  update_prepared-Written :
      (body : Option (Dict Item))
      → Same db j s.saved s
      → Written db j s.saved c id access
          (update_prepared db exists_in strptime now c id access limits outcome body s).0.saved
  unfolding update_prepared
  update_prepared-Written none same = inl refl
  update_prepared-Written (some body) same =
      write_body-Written db j s.saved c id access outcome _
        (relate_loop-FlowSame db j s.saved exists_in id limits c.rest_related _ same)

  -- From a session without pending changes, an update changes no row but the one of its id, and that
  -- one only if the caller has the access that is asked for, whichever way it ends.
  pub update_safe :
      (body : Dict Item)
      → s.now ≡ s.saved
      → (db.row (update db exists_in strptime now c id body access limits outcome s).0.saved j
          ≡ db.row s.saved j)
        ⊎ ((may c access (db.row s.saved j) ≡ ok true) × (id ≡ j))
  unfolding update
  update_safe body fresh = elim (Bool-cases (renames id (lookup "id" body))) [
    | inl other ↦ rw other (inl refl)
    | inr same ↦ rw same (
        update_prepared-Written (prepared db exists_in strptime now body)
          (ap (λ (u : db.State). db.row u j) fresh, refl))
  ]
