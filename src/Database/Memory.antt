-- ===== src/Database/Memory.antt =====
-- An instance of the interface to the database: functions from ids.
use apicrud.Prelude.{
  ◌&&◌, ◌||◌, not, Option, none, String, List, [], ◌∷◌, ◌++◌, ◌≡◌, refl, arith, if◌then◌else◌, ◌==◌,
  text_eq, eq_refl, ◌∙◌,
}
use apicrud.Python.PySet.{contains, minus, contains-append, contains-minus}
use apicrud.Access.{Row}
use apicrud.Database.{Tables, set_columns}

pub record Memory : Type 0 where
  pub rows : String → Option Row
  pub links : String → String → List String

abbrev pub at :
    (List String → List String) → String → String → String → String → List String → List String
at change k attr j a links = if k == j && attr == a then change links else links

contains-one : (n m : String) → contains n (m ∷ []) ≡ (m == n)
unfolding contains
contains-one n m = ground arith

pub links-relate :
    (t : Memory) (k attr m n : String)
    → contains n (at (λ l. l ++ m ∷ []) k attr k attr (t.links k attr))
      ≡ (contains n (t.links k attr) || m == n)
links-relate t k attr m n =
    rw (eq_refl k)
      (rw (eq_refl attr) (contains-append n (t.links k attr) (m ∷ []) ∙ rw (contains-one n m)))

pub links-unrelate :
    (t : Memory) (k attr m n : String)
    → contains n (at (λ l. minus l (m ∷ [])) k attr k attr (t.links k attr))
      ≡ (contains n (t.links k attr) && not (m == n))
links-unrelate t k attr m n =
    rw (eq_refl k)
      (rw (eq_refl attr) (contains-minus n (t.links k attr) (m ∷ []) ∙ rw (contains-one n m)))

abbrev pub memory : Tables
memory = record {
  State = Memory;
  row = λ t k. t.rows k;
  related = λ t k attr. t.links k attr;
  update_row =
      λ t k cols. record t { rows = λ j. if k == j then set_columns cols (t.rows j) else t.rows j };
  delete_row = λ t k. record t { rows = λ j. if k == j then none else t.rows j };
  relate = λ t k attr m. record t { links = λ j a. at (λ l. l ++ m ∷ []) k attr j a (t.links j a) };
  unrelate =
      λ t k attr m. record t { links = λ j a. at (λ l. minus l (m ∷ [])) k attr j a (t.links j a) };
  row-update = λ t k cols j. refl;
  row-delete = λ t k j. refl;
  row-relate = λ t k attr m j. refl;
  row-unrelate = λ t k attr m j. refl;
  related-relate = links-relate;
  related-unrelate = links-unrelate;
}
