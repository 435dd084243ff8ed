-- ===== src/Crud/Contact/Sync.antt =====
-- apicrud/basic_crud.py, update_contact: the contact and the identity of its person.
use apicrud.Prelude.{
  Bool, true, false, Option, none, some, String, ◌≡◌, ◌≢◌, ◌⊎◌, inl, inr, refl, sym, ap, ◌∙◌,
  if_cases, text_eq, number_eq, arith, subst,
}
use apicrud.Python.Result.{Result, ok, err}
use apicrud.Python.Dict.{Dict, lookup, insert, lookup-insert}
use apicrud.Access.{Row}
use apicrud.Database.{Tables, Session}
use apicrud.Crud.{Response, Controller, Item, null, text, flag, ids, columns_of, may}
use apicrud.Crud.Update.{renames}
use apicrud.Crud.Contact.{
  passed, check_type, is_text, People, person_of, identity_item, Book, conflict, with_identity,
  sync_person, unconfirmed, write_contact, column_of, contact_permitted, replied, update_checked,
  update_contact,
}

module _ (db : Tables) where
  -- the persons behind an update: the one with the earlier address has the new one, or none had it
  abbrev pub PeopleAfter : Option String → Option Item → People → People → Type 0
  PeopleAfter prev info before after =
      ((person_of prev before ≡ ok none) × (after ≡ before))
      ⊎ ((person : String) × (identity : String) × (person_of prev before ≡ ok (some person))
          × (info ≡ some (text identity))
          × (after ≡ insert person identity before))

  identity_item_text :
      (info : Option Item) (identity : String)
      → identity_item info ≡ some identity
      → info ≡ some (text identity)
  unfolding identity_item
  identity_item_text none identity h = absurd (cc)
  identity_item_text (some null) identity h = absurd (cc)
  identity_item_text (some (text t)) identity h =
      let e : t ≡ identity = cc h in ap (λ (u : String). some (text u)) e
  identity_item_text (some (flag b)) identity h = absurd (cc)
  identity_item_text (some (ids xs)) identity h = absurd (cc)

  conflict_code : (s : Session (Book db)) → (conflict db s).1.code ≢ 200
  conflict_code s h = absurd (omega arith)

  with_identity-People :
      (fits : Bool) (id person : String) (t : db.State) (prev : Option String) (info : Option Item)
      (found : Option String) (s : Session (Book db))
      → person_of prev s.now.1 ≡ ok (some person)
      → identity_item info ≡ found
      → (with_identity db fits id person t found s).1.code ≡ 200
      → ((with_identity db fits id person t found s).0.saved.0 ≡ t)
        × PeopleAfter prev info s.now.1 (with_identity db fits id person t found s).0.saved.1
  unfolding with_identity
  with_identity-People fits id person t prev info none s known item h = absurd (conflict_code s h)
  with_identity-People false id person t prev info (some identity) s known item h =
      absurd (conflict_code s h)
  with_identity-People true id person t prev info (some identity) s known item h =
      (refl, inr (person, identity, known, identity_item_text info identity item, refl))

  sync_person-People :
      (fits : Bool) (id : String) (body : Dict Item) (t : db.State) (prev : Option String)
      (found : Result (Option String)) (s : Session (Book db))
      → person_of prev s.now.1 ≡ found
      → (sync_person db fits id body t found s).1.code ≡ 200
      → ((sync_person db fits id body t found s).0.saved.0 ≡ t)
        × PeopleAfter prev
            (lookup "info" body)
            s.now.1
            (sync_person db fits id body t found s).0.saved.1
  unfolding sync_person
  sync_person-People fits id body t prev (err e) s known h = absurd (conflict_code s h)
  sync_person-People false id body t prev (ok none) s known h = absurd (conflict_code s h)
  sync_person-People true id body t prev (ok none) s known h = (refl, inl (known, refl))
  sync_person-People fits id body t prev (ok (some person)) s known h =
      with_identity-People fits id person t prev (lookup "info" body) _ s known refl h

  -- what an update of a contact with status 200 has done
  abbrev pub Updated : Controller → String → Dict Item → Row → Book db → Book db → Type 0
  Updated c id body row before after =
      (may c "u" (some row) ≡ ok true)
      × ((cols : Dict (Option String)) × (columns_of (unconfirmed db body) ≡ some cols)
          × (after.0 ≡ db.update_row before.0 id cols))
      × PeopleAfter (column_of db (lookup "info" row.columns)) (lookup "info" body) before.1 after.1

  lookup-unconfirmed : (body : Dict Item) → lookup "info" (unconfirmed db body) ≡ lookup "info" body
  unfolding unconfirmed
  lookup-unconfirmed body =
      if_cases (λ (d : Dict Item). lookup "info" d ≡ lookup "info" body)
        (is_text "disabled" (lookup "status" body)) _ _ (λ off. refl)
        (λ on. lookup-insert "status" "info" (text "unconfirmed") body)

  write_contact-People :
      (fits : Bool) (id : String) (prev : Option String) (body : Dict Item)
      (cols : Option (Dict (Option String))) (s : Session (Book db))
      → columns_of body ≡ cols
      → (write_contact db fits id prev body cols s).1.code ≡ 200
      → ((given : Dict (Option String)) × (columns_of body ≡ some given)
          × ((write_contact db fits id prev body cols s).0.saved.0
              ≡ db.update_row s.now.0 id given))
        × PeopleAfter prev
            (lookup "info" body)
            s.now.1
            (write_contact db fits id prev body cols s).0.saved.1
  unfolding write_contact
  write_contact-People fits id prev body none s e h = absurd (conflict_code s h)
  write_contact-People fits id prev body (some cols) s e h =
      let (table, people) =
        sync_person-People fits id body (db.update_row s.now.0 id cols) prev _ s refl h in
      ((cols, e, table), people)

  permitted-Updated :
      (c : Controller) (fits : Bool) (id : String) (body : Dict Item) (permission : Result Bool)
      (row : Row) (s : Session (Book db))
      → may c "u" (some row) ≡ permission
      → (contact_permitted db fits id body permission (some row) s).1.code ≡ 200
      → Updated c id body row s.now
          (contact_permitted db fits id body permission (some row) s).0.saved
  unfolding contact_permitted
  permitted-Updated c fits id body (err e) row s permission h = absurd (conflict_code s h)
  permitted-Updated c fits id body (ok false) row s permission h = absurd (omega arith)
  permitted-Updated c fits id body (ok true) row s permission h =
      let (written, people) = write_contact-People fits id _ (unconfirmed db body) _ s refl h in
      (
        permission,
        written,
        subst
            (λ (info : Option Item).
              PeopleAfter (column_of db (lookup "info" row.columns)) info s.now.1
                (write_contact db fits id (column_of db (lookup "info" row.columns))
                  (unconfirmed db body) (columns_of (unconfirmed db body)) s).0.saved.1)
            (lookup-unconfirmed body) people,
      )

  replied_code :
      (ended : Session (Book db) × Response) (response : Response)
      → (replied db ended).1 ≡ ok response
      → response.code ≡ 200
      → ended.1.code ≡ 200
  replied_code (s, given) response e h =
      let same : given ≡ response = cc e in ap (λ (g : Response). g.code) same ∙ h

  update_contact_lem :
      (c : Controller) (fits : Bool) (now id : String) (body body' : Dict Item) (row : Row)
      (s : Session (Book db))
      → check_type (passed body) body ≡ ok (passed body')
      → renames id (lookup "id" body') ≡ false
      → db.row s.now.0 id ≡ some row
      → update_contact db c fits now id body s
        ≡ replied db (
            contact_permitted db fits id
              (insert "modified" (text now) body')
              (may c "u" (some row))
              (some row)
              s)
  unfolding update_contact update_checked
  update_contact_lem c fits now id body body' row s typed same_id known =
      rw typed (rw same_id (rw known))

  -- An update of a contact that ends with status 200 is one that the caller may make: the columns of the
  -- body are in the contact's row, and the person whose identity was the contact's address has the
  -- address of the body as its identity, or no person had it and none is changed.
  pub update_contact-Updated :
      (c : Controller) (fits : Bool) (now id : String) (body body' : Dict Item) (row : Row)
      (s : Session (Book db)) (response : Response)
      → check_type (passed body) body ≡ ok (passed body')
      → renames id (lookup "id" body') ≡ false
      → db.row s.now.0 id ≡ some row
      → (update_contact db c fits now id body s).1 ≡ ok response
      → response.code ≡ 200
      → Updated c id
          (insert "modified" (text now) body')
          row
          s.now
          (update_contact db c fits now id body s).0.saved
  update_contact-Updated c fits now id body body' row s response typed same_id known done code =
      let e = update_contact_lem c fits now id body body' row s typed same_id known in
      let done' = ap (λ (p : Session (Book db) × Result Response). p.1) (sym e) ∙ done in
      subst
        (λ (p : Session (Book db) × Result Response).
          Updated c id (insert "modified" (text now) body') row s.now p.0.saved)
        (sym e)
        (permitted-Updated c fits id (insert "modified" (text now) body') _ row s refl (
          replied_code
            (contact_permitted db fits id (insert "modified" (text now) body')
              (may c "u" (some row)) (some row) s)
            response done' code))
