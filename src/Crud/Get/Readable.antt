-- ===== src/Crud/Get/Readable.antt =====
-- apicrud/basic_crud.py, BasicCRUD.get, and apicrud/geocode.py, with_privacy: who sees a record, its
-- exact place and its address.
use apicrud.Prelude.{
  Bool, true, false, not, ◌&&◌, Option, none, some, String, List, Char, ◌≡◌, ◌⊎◌, inl, inr, refl,
  subst, ap, ◌∙◌, ◌==◌, text_eq, char_eq, option_eq, if_cases, arith, if◌then◌else◌,
}
use apicrud.Python.Result.{Exn, Result, ok, err, ◌>>=◌, or_raise}
use apicrud.Python.PySet.{contains}
use apicrud.Python.Dict.{Dict, lookup, insert, remove, lookup-insert, lookup-remove}
use apicrud.Access.{AccessControl, Row}
use apicrud.Crud.{Controller}
use apicrud.Crud.Get.{
  Relations, nowhere, exact, rounded, Found, shown, located, error, permissions, coordinates_of,
  popped, without_address, exactly, roughly, with_privacy, place_answer, answer, with_rbac, get_row,
  get,
}

-- neither the place nor its coordinates are in the record
abbrev pub HidesPlace : Dict (Option String) → Type 0
HidesPlace given = (lookup "geolat" given ≡ none) × (lookup "geolong" given ≡ none)

abbrev pub HidesAddress : Dict (Option String) → Type 0
HidesAddress given = (lookup "address" given ≡ none) ⊎ (lookup "address" given ≡ some (some ""))

popped-HidesPlace : (cols : Dict (Option String)) → HidesPlace (popped cols)
popped-HidesPlace cols = (
  lookup-remove "geolat" "geolat" (remove "geolong" cols),
  lookup-remove "geolat" "geolong" (remove "geolong" cols) ∙ lookup-remove "geolong" "geolong" cols,
)

lookup-popped :
    (cols : Dict (Option String)) → lookup "address" (popped cols) ≡ lookup "address" cols
lookup-popped cols =
    lookup-remove "geolat" "address" (remove "geolong" cols)
    ∙ lookup-remove "geolong" "address" cols

without_address-HidesAddress :
    (address : Option (Option String)) (cols : Dict (Option String))
    → lookup "address" cols ≡ address
    → HidesAddress (popped (without_address address cols))
without_address-HidesAddress none cols h = inl (lookup-popped cols ∙ h)
without_address-HidesAddress (some address) cols h = inr (
    lookup-popped (insert "address" (some "") cols)
    ∙ lookup-insert "address" "address" (some "") cols)

module _ (acc : AccessControl) (readable : Bool) (cols : Dict (Option String)) where
  -- the caller may read the record, or its privacy is not `secret`
  abbrev pub IsOpen : Type 0
  IsOpen =
      (readable ≡ true)
      ⊎ ((privacy : Option String) × (lookup "privacy" cols ≡ some privacy)
          × ((privacy == some "secret") ≡ false))

  -- the caller may read the record, or owns it
  abbrev pub IsTrusted : Type 0
  IsTrusted = (readable ≡ true) ⊎ (lookup "uid" cols ≡ some acc.uid)

  -- what may be given out of a record, by what the caller may do
  abbrev pub IsGuarded : Found → Type 0
  IsGuarded (shown given) = (readable ≡ true) × (given ≡ cols)
  IsGuarded (located nowhere given) = IsOpen × HidesPlace given
  IsGuarded (located (exact long lat) given) =
      IsOpen × IsTrusted × (coordinates_of cols ≡ some (long, lat)) × HidesPlace given
  IsGuarded (located (rounded long lat) given) =
      IsOpen × (coordinates_of cols ≡ some (long, lat)) × HidesPlace given × HidesAddress given
  IsGuarded (error response) = readable ≡ false

  exactly-IsGuarded :
      IsOpen
      → IsTrusted
      → (place : Option (String × String)) → coordinates_of cols ≡ place
      → IsGuarded (exactly place cols)
  unfolding exactly
  exactly-IsGuarded opened trusted none h = (opened, popped-HidesPlace cols)
  exactly-IsGuarded opened trusted (some (long, lat)) h =
      (opened, trusted, h, popped-HidesPlace cols)

  roughly-IsGuarded :
      IsOpen
      → (place : Option (String × String)) → coordinates_of cols ≡ place
      → IsGuarded (roughly place cols)
  unfolding roughly
  roughly-IsGuarded opened none h = (opened, popped-HidesPlace cols)
  roughly-IsGuarded opened (some (long, lat)) h = (
    opened,
    h,
    popped-HidesPlace (without_address (lookup "address" cols) cols),
    without_address-HidesAddress (lookup "address" cols) cols refl,
  )

  abbrev pub Answers : Result Found → Type 0
  Answers answered = (found : Found) → answered ≡ ok found → IsGuarded found

  answers : (given : Found) → IsGuarded given → Answers (ok given)
  answers given guarded found h = subst (λ (r : Result Found). GuardedIn r) h guarded
    where
      GuardedIn : Result Found → Type 0
      GuardedIn (err e) = Unit {0}
      GuardedIn (ok found) = IsGuarded found

  by_uid :
      IsOpen
      → (uid : Option (Option String)) → lookup "uid" cols ≡ uid
      → Answers (
          or_raise uid Exn.key_error >>= (λ uid. ok (
            if uid == acc.uid
            then exactly (coordinates_of cols) cols
            else roughly (coordinates_of cols) cols)))
  by_uid opened none h = λ found e. absurd (cc)
  by_uid opened (some uid) h =
      if_cases (λ (found : Found). Answers (ok found)) (uid == acc.uid) _ _
        (λ own. answers _ (
          exactly-IsGuarded opened (inr (h ∙ ap some ((option_eq.test_iff uid acc.uid).0 own))) _
            refl))
        (λ foreign. answers _ (roughly-IsGuarded opened _ refl))

with_privacy-IsGuarded :
    (acc : AccessControl) (readable : Bool) (cols : Dict (Option String))
    → IsOpen acc readable cols
    → Answers acc readable cols (with_privacy acc readable cols)
unfolding with_privacy
with_privacy-IsGuarded acc true cols opened =
    answers acc true cols _ (exactly-IsGuarded acc true cols opened (inl refl) _ refl)
with_privacy-IsGuarded acc false cols opened = by_uid acc false cols opened (lookup "uid" cols) refl

open_if :
    (acc : AccessControl) (readable : Bool) (cols : Dict (Option String)) (privacy : Option String)
    → lookup "privacy" cols ≡ some privacy
    → (privacy == some "secret" && not readable) ≡ false
    → IsOpen acc readable cols
open_if acc true cols privacy found h = inl refl
open_if acc false cols privacy found h = inr (privacy, found, ground (arith, h))

place_answer-IsGuarded :
    (acc : AccessControl) (readable : Bool) (cols : Dict (Option String))
    (privacy : Option (Option String))
    → lookup "privacy" cols ≡ privacy
    → Answers acc readable cols (place_answer acc readable privacy cols)
unfolding place_answer
place_answer-IsGuarded acc readable cols none h = λ found e. absurd (cc)
place_answer-IsGuarded acc readable cols (some privacy) h =
    if_cases (Answers acc readable cols) (privacy == some "secret" && not readable) _ _
      (λ denied. answers acc readable cols _ (ground (arith, denied)))
      (λ let_in.
        with_privacy-IsGuarded acc readable cols (open_if acc readable cols privacy h let_in))

answer-IsGuarded :
    (c : Controller) (id : String) (readable : Bool) (geolat : Option (Option String))
    (cols : Dict (Option String))
    → Answers c.acc readable cols (answer c id readable geolat cols)
unfolding answer
answer-IsGuarded c id readable (some geolat) cols =
    place_answer-IsGuarded c.acc readable cols (lookup "privacy" cols) refl
answer-IsGuarded c id true none cols = answers c.acc true cols _ (refl, refl)
answer-IsGuarded c id false none cols = answers c.acc false cols _ refl

with_rbac-IsGuarded :
    (c : Controller) (rel : Relations) (id : String) (row : Row) (p : Result (List Char))
    (found : Found)
    → (p >>= (λ rbac.
        let cols = with_rbac rel row rbac in
        answer c id (contains "r" rbac) (lookup "geolat" cols) cols))
      ≡ ok found
    → (rbac : List Char) × (p ≡ ok rbac)
      × IsGuarded c.acc (contains "r" rbac) (with_rbac rel row rbac) found
with_rbac-IsGuarded c rel id row (err e) found h = absurd (cc)
with_rbac-IsGuarded c rel id row (ok rbac) found h =
    (rbac, refl, answer-IsGuarded c id (contains "r" rbac) _ _ found h)

-- What get answers for a record that the query finds, by the caller's permissions on it: the record
-- itself only if they have `r`; a record that can have a place, and then without its two coordinates,
-- only if they have `r` or its privacy is not `secret`; its exact place only if they have `r` or its
-- uid is the caller's; a rounded place only with the address blank; and an error only if they lack `r`.
pub get-IsGuarded :
    (c : Controller) (rel : Relations) (id : String) (row : Row) (found : Found)
    → get c rel id (some row) ≡ ok found
    → (rbac : List Char) × (permissions c rel row ≡ ok rbac)
      × IsGuarded c.acc (contains "r" rbac) (with_rbac rel row rbac) found
unfolding get get_row
get-IsGuarded c rel id row found = with_rbac-IsGuarded c rel id row (permissions c rel row) found
