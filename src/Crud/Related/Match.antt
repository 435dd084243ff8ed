-- ===== src/Crud/Related/Match.antt =====
-- apicrud/basic_crud.py, BasicCRUD._update_related: the members that it leaves.
use apicrud.Prelude.{
  ℕ, Bool, true, false, not, ◌&&◌, ◌||◌, Option, some, String, List, [], ◌∷◌, ◌≡◌, refl, ◌∙◌, ap,
  arith, text_eq, eq_refl, Bool-cases, inl, inr,
}
use apicrud.Python.Result.{Result, ok, err}
use apicrud.Python.PySet.{contains, minus, union, contains-minus, contains-union}
use apicrud.Access.{Row}
use apicrud.Database.{Tables, Session}
use apicrud.Crud.Related.{
  exceeds, relate_all, unrelate_all, linked, unlink_then, change_members, update_found,
  update_related,
}

module _ (db : Tables) (exists_in : String → Bool) (id attr : String) where
  abbrev members : db.State → String → Bool
  members t n = contains n (db.related t id attr)

  members-relate_all :
      (ms : List String) (t : db.State) (n : String)
      → (relate_all db exists_in id attr ms t).1 ≡ ok tt
      → members (relate_all db exists_in id attr ms t).0 n ≡ (members t n || contains n ms)
  unfolding relate_all contains
  members-relate_all [] t n = λ h. ground arith
  members-relate_all (m ∷ ms) t n = elim (Bool-cases (exists_in m)) [
    | inl there ↦ rw there (λ h.
        members-relate_all ms (db.relate t id attr m) n h
        ∙ rw (db.related-relate t id attr m n) (ground arith))
    | inr absent ↦ rw absent (λ h. cc)
  ]

  members-unrelate_all :
      (ms : List String) (t : db.State) (n : String)
      → (unrelate_all db exists_in id attr ms t).1 ≡ ok tt
      → members (unrelate_all db exists_in id attr ms t).0 n ≡ (members t n && not (contains n ms))
  unfolding unrelate_all contains
  members-unrelate_all [] t n = λ h. ground arith
  members-unrelate_all (m ∷ ms) t n = elim (Bool-cases (exists_in m)) [
    | inl there ↦ rw there (λ h.
        members-unrelate_all ms (db.unrelate t id attr m) n h
        ∙ rw (db.related-unrelate t id attr m n) (ground arith))
    | inr absent ↦ rw absent (λ h. cc)
  ]

  abbrev Matches : (String → Bool) → db.State × Result (Unit {0}) → Type 0
  Matches wanted ended = ended.1 ≡ ok tt → (n : String) → members ended.0 n ≡ wanted n

  unlink-Matches :
      (removed : List String) (linking : db.State × Result (Unit {0})) (between : String → Bool)
      → Matches between linking
      → Matches
          (λ n. between n && not (contains n removed))
          (unlink_then db exists_in id attr removed linking)
  unfolding unlink_then
  unlink-Matches removed (t, err e) between h failed n = cc
  unlink-Matches removed (t, ok u) between h done n =
      members-unrelate_all removed t n done
      ∙ ap (λ (b : Bool). b && not (contains n removed)) (h (cc) n)

  change_members-Matches :
      (wanted : List String) (t : db.State)
      → Matches
          (λ n. contains n wanted)
          (change_members db exists_in id attr (db.related t id attr) wanted t)
  unfolding change_members
  change_members-Matches wanted t done n =
      unlink-Matches (minus (union [] (db.related t id attr)) wanted) _
        (λ k. members t k || contains k (minus (union [] wanted) (db.related t id attr)))
        (λ h k. members-relate_all _ t k h) done n
      ∙ (unfold contains in
          ground (
            arith,
            contains-minus n (union [] wanted) (db.related t id attr),
            contains-minus n (union [] (db.related t id attr)) wanted,
            contains-union n [] wanted,
            contains-union n [] (db.related t id attr),
          ))

  relate_all_done :
      (ms : List String) (t : db.State)
      → ((m : String) → contains m ms ≡ true → exists_in m ≡ true)
      → (relate_all db exists_in id attr ms t).1 ≡ ok tt
  unfolding relate_all contains
  relate_all_done [] t h = refl
  relate_all_done (m ∷ ms) t h =
      rw (h m (ground (arith, eq_refl m)))
        (relate_all_done ms (db.relate t id attr m) (λ k listed. h k (ground (arith, listed))))

  unrelate_all_done :
      (ms : List String) (t : db.State)
      → ((m : String) → contains m ms ≡ true → exists_in m ≡ true)
      → (unrelate_all db exists_in id attr ms t).1 ≡ ok tt
  unfolding unrelate_all contains
  unrelate_all_done [] t h = refl
  unrelate_all_done (m ∷ ms) t h =
      rw (h m (ground (arith, eq_refl m)))
        (unrelate_all_done ms (db.unrelate t id attr m) (λ k listed. h k (ground (arith, listed))))

  unlink_then_done :
      (removed : List String) (linking : db.State × Result (Unit {0}))
      → linking.1 ≡ ok tt
      → ((m : String) → contains m removed ≡ true → exists_in m ≡ true)
      → (unlink_then db exists_in id attr removed linking).1 ≡ ok tt
  unfolding unlink_then
  unlink_then_done removed (t, err e) h all = cc
  unlink_then_done removed (t, ok u) h all = unrelate_all_done removed t all

  change_members_done :
      (wanted : List String) (t : db.State)
      → ((m : String)
          → (contains m wanted || contains m (db.related t id attr)) ≡ true
          → exists_in m ≡ true)
      → (change_members db exists_in id attr (db.related t id attr) wanted t).1 ≡ ok tt
  unfolding change_members
  change_members_done wanted t all =
      unlink_then_done (minus (union [] (db.related t id attr)) wanted) _
        (relate_all_done (minus (union [] wanted) (db.related t id attr)) t (λ m h. all m (
          unfold contains in
          ground (
            arith,
            h,
            contains-minus m (union [] wanted) (db.related t id attr),
            contains-union m [] wanted,
          ))))
        (λ m h. all m (
          unfold contains in
          ground (
            arith,
            h,
            contains-minus m (union [] (db.related t id attr)) wanted,
            contains-union m [] (db.related t id attr),
          )))

  linked_ok :
      (ended : db.State × Result (Unit {0})) (s : Session db.State)
      → ended.1 ≡ ok tt
      → linked db exists_in id attr ended.0 ended.1 s ≡ (
        record { now = ended.0; saved = ended.0 },
        ok (record { code = 200; id = some id; message = "ok" }),
      )
  linked_ok (t, err e) s h = cc
  linked_ok (t, ok u) s h = refl

  -- Where the record is there, the limit is kept and every id of the given list and of the present one
  -- is some record's, the members are saved as the given list: an id is a member exactly if the list
  -- has it.
  pub related-update_related :
      (wanted : List String) (limit : Option ℕ) (s : Session db.State) (row : Row)
      → exceeds limit wanted ≡ false
      → db.row s.now id ≡ some row
      → ((m : String)
          → (contains m wanted || contains m (db.related s.now id attr)) ≡ true
          → exists_in m ≡ true)
      → ((update_related db exists_in id attr wanted limit s).1
          ≡ ok (record { code = 200; id = some id; message = "ok" }))
        × ((n : String)
            → contains n
                (db.related (update_related db exists_in id attr wanted limit s).0.saved id attr)
              ≡ contains n wanted)
  unfolding update_related update_found
  related-update_related wanted limit s row within found all =
      let done = change_members_done wanted s.now all in
      rw (within, found)
        (rw
          (linked_ok (change_members db exists_in id attr (db.related s.now id attr) wanted s.now) s
            done)
          (refl, change_members-Matches wanted s.now done))
