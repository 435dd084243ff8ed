-- ===== src/Storage/Names/Strip.antt =====
-- apicrud/media/storage.py, get_upload_url: what `strip` takes off a file's name.
use Prim.Native.String.{String}
use apicrud.Prelude.{
  ◌≤◌, ◌<◌, Bool, true, false, List, [], ◌∷◌, ◌++◌, ◌≡◌, refl, ap, arith, inl, inr, Char, length,
  ◌==◌, number_eq, Bool-cases, All,
}
use apicrud.Python.Result.{Exn, err}
use apicrud.Python.Text.{to_list}
use apicrud.Storage.Names.{
  matched, uuid_name, in_strip, lstrip, unless_bare, rstrip, strip, undashed, uuid_digits,
  shortened, short_name,
}

-- characters that `strip` takes off
abbrev pub AllStripped : List Char → Type 0
AllStripped s = All (λ c. in_strip c ≡ true) s

rstrip_bare : (s : List Char) → AllStripped s → rstrip s ≡ []
unfolding rstrip
rstrip_bare [] h = refl
rstrip_bare (c ∷ s) (first, rest) = rw (first, rstrip_bare s rest)

rstrip-append : (s t : List Char) → AllStripped t → rstrip (s ++ t) ≡ rstrip s
unfolding rstrip
rstrip-append [] t h = rstrip_bare t h
rstrip-append (c ∷ s) t h = rw (rstrip-append s t h)

lstrip-append : (s t : List Char) → AllStripped s → lstrip (s ++ t) ≡ lstrip t
unfolding lstrip
lstrip-append [] t h = refl
lstrip-append (c ∷ s) t (first, rest) = rw first (lstrip-append s t rest)

lstrip_bare : (s : List Char) → AllStripped s → lstrip s ≡ []
unfolding lstrip
lstrip_bare [] h = refl
lstrip_bare (c ∷ s) (first, rest) = rw first (lstrip_bare s rest)

undashed_cons :
    (c : Char) (s t : List Char)
    → length (undashed s) ≤ length (undashed t)
    → length (undashed (c ∷ s)) ≤ length (undashed (c ∷ t))
unfolding undashed
undashed_cons c s t h = ground arith

undashed-le : (c : Char) (s : List Char) → length (undashed s) ≤ length (undashed (c ∷ s))
unfolding undashed
undashed-le c s = ground arith

unless_bare-le :
    (c : Char) (b : Bool) (s t : List Char)
    → length (undashed s) ≤ length (undashed t)
    → length (undashed (unless_bare c b s)) ≤ length (undashed (c ∷ t))
unfolding undashed
unless_bare-le c true [] t h = omega arith
unless_bare-le c false [] t h = undashed_cons c [] t h
unless_bare-le c b (d ∷ s) t h = undashed_cons c (d ∷ s) t h

undashed-rstrip-le : (s : List Char) → length (undashed (rstrip s)) ≤ length (undashed s)
unfolding rstrip
undashed-rstrip-le [] = omega arith
undashed-rstrip-le (c ∷ s) = unless_bare-le c (in_strip c) (rstrip s) s (undashed-rstrip-le s)

undashed-strip-le :
    (s t : List Char)
    → AllStripped t
    → length (undashed (rstrip (lstrip (s ++ t)))) ≤ length (undashed s)
unfolding lstrip
undashed-strip-le [] t h = rw (lstrip_bare t h) (unfold rstrip undashed in omega arith)
undashed-strip-le (c ∷ s) t h = elim (Bool-cases (in_strip c)) [
  | inl off ↦ rw off (omega (arith, undashed-strip-le s t h, undashed-le c s))
  | inr on ↦ rw on (rw (rstrip-append (c ∷ s) t h) (undashed-rstrip-le (c ∷ s)))
]

strip_few :
    (front middle back : List Char)
    → AllStripped front
    → AllStripped back
    → length (undashed (rstrip (lstrip (front ++ (middle ++ back))))) ≤ length (undashed middle)
strip_few front middle back hf hb =
    rw (lstrip-append front (middle ++ back) hf) (undashed-strip-le middle back hb)

-- A name like that of a UUID, whose digits start or end with the letter `e`, has fewer than 32 digits
-- left when the characters of `.jpeg` are taken off both ends: the call raises ValueError. The middle
-- is what stands between characters that are taken off, such as the `e` and the ending.
pub short_name_raises :
    (b64 : List Char → String) (name : String) (front middle back : List Char)
    → to_list name ≡ front ++ (middle ++ back)
    → AllStripped front
    → AllStripped back
    → length (undashed middle) < 32
    → matched (uuid_name (to_list name)) ≡ true
    → short_name b64 name ≡ err Exn.value_error
unfolding short_name uuid_digits shortened strip
short_name_raises b64 name front middle back e hf hb few m =
    let fewer : (length (undashed (rstrip (lstrip (to_list name)))) == 32) ≡ false = ground (
      arith,
      strip_few front middle back hf hb,
      ap (λ (s : List Char). length (undashed (rstrip (lstrip s)))) e,
    ) in
    rw m (rw fewer)
