-- ===== src/Crud/Delete/Safety.antt =====
-- apicrud/basic_crud.py, BasicCRUD.delete: which rows it changes, and when it saves them.
use apicrud.Prelude.{
  ℕ, zero, suc, Bool, true, false, Option, none, some, String, List, [], ◌∷◌, ◌≡◌, ◌≢◌, ◌⊎◌, inl,
  inr, refl, sym, ◌∙◌, ap, subst, arith, ◌==◌, number_eq, text_eq, eq_iff, Bool-cases, if_cases,
}
use apicrud.Python.Result.{Result, ok, err}
use apicrud.Python.PySet.{contains}
use apicrud.Access.{Row}
use apicrud.Database.{Tables, Session}
use apicrud.Crud.{Response, Controller, may}
use apicrud.Crud.Delete.{
  Progress, stopped, going, forced, allowed, delete_one, delete_loop, finish, delete,
}

module _ (db : Tables) where
  -- nothing is saved while the loop runs
  abbrev pub Unsaved : db.State → Progress db.State → Type 0
  Unsaved t (stopped s response) = (s.saved ≡ t) × (response.code ≢ 204) × (response.code ≢ 404)
  Unsaved t (going s errors) = s.saved ≡ t

  pub finish_atomic :
      (commits : Bool) (t : db.State) (p : Progress db.State)
      → Unsaved t p
      → (finish db commits p).1.code ≢ 204
      → (finish db commits p).1.code ≢ 404
      → (finish db commits p).0.saved ≡ t
  unfolding finish
  finish_atomic commits t (stopped s response) h not_204 not_404 = h.0
  finish_atomic false t (going s errors) h not_204 not_404 = h
  finish_atomic true t (going s zero) h not_204 not_404 = absurd (not_204 refl)
  finish_atomic true t (going s (suc n)) h not_204 not_404 =
      let e : (suc n == 0) ≡ false = ground arith in absurd (not_404 (rw e))

module _ (db : Tables) (c : Controller) (force : Bool) (raises : String → Bool) where
  forced-Unsaved :
      (id : String) (found : Option Row) (s : Session db.State) (errors : ℕ)
      → Unsaved db s.saved (forced db id found s errors)
  unfolding forced
  forced-Unsaved id none s errors = refl
  forced-Unsaved id (some row) s errors = refl

  allowed-Unsaved :
      (id : String) (permission : Result Bool) (s : Session db.State) (errors : ℕ)
      → Unsaved db s.saved (allowed db force id permission s errors)
  unfolding allowed
  allowed-Unsaved id (err e) s errors = (refl, omega arith, omega arith)
  allowed-Unsaved id (ok false) s errors = (refl, omega arith, omega arith)
  allowed-Unsaved id (ok true) s errors =
      if_cases (Unsaved db s.saved) force _ _ (λ _. forced-Unsaved id _ s errors) (λ _. refl)

  pub delete_one-Unsaved :
      (id : String) (s : Session db.State) (errors : ℕ)
      → Unsaved db s.saved (delete_one db c force raises id s errors)
  unfolding delete_one
  delete_one-Unsaved id s errors =
      if_cases (Unsaved db s.saved) (raises id) _ _ (λ _. (refl, omega arith, omega arith))
        (λ _. allowed-Unsaved id _ s errors)

  delete_loop-Unsaved :
      (ids : List String) (t : db.State) (p : Progress db.State)
      → Unsaved db t p
      → Unsaved db t (delete_loop db c force raises ids p)
  unfolding delete_loop
  delete_loop-Unsaved [] t p h = h
  delete_loop-Unsaved (id ∷ ids) t (stopped s response) h = h
  delete_loop-Unsaved (id ∷ ids) t (going s errors) h =
      delete_loop-Unsaved ids t (delete_one db c force raises id s errors) (
        subst (λ (u : db.State). Unsaved db u (delete_one db c force raises id s errors)) h
          (delete_one-Unsaved id s errors))

  -- what the loop may have changed: the row of an id of the list, where the caller may delete it
  abbrev Changed : Session db.State → String → List String → Progress db.State → Type 0
  Changed s j ids (stopped s' response) = Unit {0}
  Changed s j ids (going s' errors) =
      (db.row s'.now j ≡ db.row s.now j)
      ⊎ ((may c "d" (db.row s.now j) ≡ ok true) × (contains j ids ≡ true))

  abbrev pub Only : Session db.State → String → String → Progress db.State → Type 0
  Only s j id (stopped s' response) = Unit {0}
  Only s j id (going s' errors) =
      (db.row s'.now j ≡ db.row s.now j)
      ⊎ ((may c "d" (db.row s.now j) ≡ ok true) × ((id == j) ≡ true))

  at_id :
      (s : Session db.State) (j id : String)
      → may c "d" (db.row s.now id) ≡ ok true
      → (id == j) ≡ true
      → may c "d" (db.row s.now j) ≡ ok true
  at_id s j id h same =
      ap (λ (k : String). may c "d" (db.row s.now k)) (sym ((eq_iff id j).0 same)) ∙ h

  forced-Only :
      (id j : String) (found : Option Row) (s : Session db.State) (errors : ℕ)
      → may c "d" (db.row s.now id) ≡ ok true
      → Only s j id (forced db id found s errors)
  unfolding forced
  forced-Only id j none s errors h = inl refl
  forced-Only id j (some row) s errors h = elim (Bool-cases (id == j)) [
    | inl same ↦ inr (at_id s j id h same, same)
    | inr other ↦ inl (db.row-delete s.now id j ∙ rw other)
  ]

  allowed-Only :
      (id j : String) (permission : Result Bool) (s : Session db.State) (errors : ℕ)
      → may c "d" (db.row s.now id) ≡ permission
      → Only s j id (allowed db force id permission s errors)
  unfolding allowed
  allowed-Only id j (err e) s errors h = tt
  allowed-Only id j (ok false) s errors h = tt
  allowed-Only id j (ok true) s errors h =
      if_cases (Only s j id) force _ _ (λ _. forced-Only id j _ s errors h)
        (λ _. elim (Bool-cases (id == j)) [
          | inl same ↦ inr (at_id s j id h same, same)
          | inr other ↦ inl (db.row-update s.now id (("status", some "disabled") ∷ []) j ∙ rw other)
        ])

  pub delete_one-Only :
      (id j : String) (s : Session db.State) (errors : ℕ)
      → Only s j id (delete_one db c force raises id s errors)
  unfolding delete_one
  delete_one-Only id j s errors =
      if_cases (Only s j id) (raises id) _ _ (λ _. tt) (λ _. allowed-Only id j _ s errors refl)

  stays_stopped :
      (ids : List String) (s t : Session db.State) (j : String) (js : List String)
      (response : Response)
      → Changed t j js (delete_loop db c force raises ids (stopped s response))
  unfolding delete_loop
  stays_stopped [] s t j js response = tt
  stays_stopped (id ∷ ids) s t j js response = tt

  combine :
      (s t : Session db.State) (j id : String) (ids : List String) (q : Progress db.State)
      → (db.row t.now j ≡ db.row s.now j)
        ⊎ ((may c "d" (db.row s.now j) ≡ ok true) × ((id == j) ≡ true))
      → Changed t j ids q
      → Changed s j (id ∷ ids) q
  unfolding contains
  combine s t j id ids (stopped u response) h k = tt
  combine s t j id ids (going u errors) (inr (permitted, same)) k = inr (permitted, rw same)
  combine s t j id ids (going u errors) (inl e) (inl f) = inl (f ∙ e)
  combine s t j id ids (going u errors) (inl e) (inr (permitted, listed)) =
      inr (ap (λ (found : Option Row). may c "d" found) (sym e) ∙ permitted, ground (arith, listed))

  after_one :
      (s : Session db.State) (j id : String) (ids : List String) (p : Progress db.State)
      → Only s j id p
      → ((t : Session db.State) (n : ℕ)
          → Changed t j ids (delete_loop db c force raises ids (going t n)))
      → Changed s j (id ∷ ids) (delete_loop db c force raises ids p)
  after_one s j id ids (stopped t response) only later = stays_stopped ids t s j (id ∷ ids) response
  after_one s j id ids (going t n) only later =
      combine s t j id ids (delete_loop db c force raises ids (going t n)) only (later t n)

  delete_loop-Changed :
      (ids : List String) (j : String) (s : Session db.State) (errors : ℕ)
      → Changed s j ids (delete_loop db c force raises ids (going s errors))
  unfolding delete_loop
  delete_loop-Changed [] j s errors = inl refl
  delete_loop-Changed (id ∷ ids) j s errors =
      after_one s j id ids (delete_one db c force raises id s errors)
        (delete_one-Only id j s errors) (delete_loop-Changed ids j)

  -- A delete of several ids saves nothing unless it answers 204 or 404: one id that the caller may not
  -- delete, or one exception, keeps all the others as they were.
  pub delete_atomic :
      (ids : List String) (commits : Bool) (s : Session db.State)
      → (delete db c raises commits ids force s).1.code ≢ 204
      → (delete db c raises commits ids force s).1.code ≢ 404
      → (delete db c raises commits ids force s).0.saved ≡ s.saved
  unfolding delete
  delete_atomic ids commits s =
      finish_atomic db commits s.saved _ (delete_loop-Unsaved ids s.saved (going s 0) refl)

  finish_safe :
      (commits : Bool) (ids : List String) (s : Session db.State) (j : String)
      (p : Progress db.State)
      → s.now ≡ s.saved
      → Unsaved db s.saved p
      → Changed s j ids p
      → (db.row (finish db commits p).0.saved j ≡ db.row s.saved j)
        ⊎ ((may c "d" (db.row s.saved j) ≡ ok true) × (contains j ids ≡ true))
  unfolding finish
  finish_safe commits ids s j (stopped t response) fresh h k =
      inl (ap (λ (u : db.State). db.row u j) h.0)
  finish_safe false ids s j (going t errors) fresh h k = inl (ap (λ (u : db.State). db.row u j) h)
  finish_safe true ids s j (going t errors) fresh h k =
      subst
        (λ (u : db.State).
          (db.row t.now j ≡ db.row u j)
          ⊎ ((may c "d" (db.row u j) ≡ ok true) × (contains j ids ≡ true)))
        fresh k

  -- From a session without pending changes, a delete changes only rows of the given ids which the
  -- caller may delete.
  pub delete_safe :
      (ids : List String) (commits : Bool) (s : Session db.State) (j : String)
      → s.now ≡ s.saved
      → (db.row (delete db c raises commits ids force s).0.saved j ≡ db.row s.saved j)
        ⊎ ((may c "d" (db.row s.saved j) ≡ ok true) × (contains j ids ≡ true))
  unfolding delete
  delete_safe ids commits s j fresh =
      finish_safe commits ids s j _ fresh (delete_loop-Unsaved ids s.saved (going s 0) refl)
        (delete_loop-Changed ids j s 0)
