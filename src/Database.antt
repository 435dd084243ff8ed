-- ===== src/Database.antt =====
-- The database, which the source reaches through SQLAlchemy and does not implement: an interface to
-- the tables, with the documented behaviour of the statements, and a session's transaction over
-- them. The instance in the child module meets the interface.
pub mod Memory
use apicrud.Prelude.{
  Bool, ◌&&◌, ◌||◌, not, Option, none, some, String, List, ◌≡◌, if◌then◌else◌, ◌==◌, text_eq,
}
use apicrud.Python.Dict.{Dict, merge}
use apicrud.Python.PySet.{contains}
use apicrud.Access.{Row}

-- the columns that UPDATE sets
abbrev pub set_columns : Dict (Option String) → Option Row → Option Row
set_columns cols none = none
set_columns cols (some row) = some (record row { columns = merge row.columns cols })

-- one table, and the association tables of its records, by attribute
pub record Tables : Type 1 where
  pub State : Type 0
  pub row : State → String → Option Row
  pub related : State → String → String → List String
  pub update_row : State → String → Dict (Option String) → State
  pub delete_row : State → String → State
  pub relate : State → String → String → String → State
  pub unrelate : State → String → String → String → State
  pub row-update :
      (t : State) (k : String) (cols : Dict (Option String)) (j : String)
      → row (update_row t k cols) j ≡ (if k == j then set_columns cols (row t j) else row t j)
  pub row-delete :
      (t : State) (k j : String) → row (delete_row t k) j ≡ (if k == j then none else row t j)
  pub row-relate : (t : State) (k attr m j : String) → row (relate t k attr m) j ≡ row t j
  pub row-unrelate : (t : State) (k attr m j : String) → row (unrelate t k attr m) j ≡ row t j
  pub related-relate :
      (t : State) (k attr m n : String)
      → contains n (related (relate t k attr m) k attr) ≡ (contains n (related t k attr) || m == n)
  pub related-unrelate :
      (t : State) (k attr m n : String)
      → contains n (related (unrelate t k attr m) k attr)
        ≡ (contains n (related t k attr) && not (m == n))

-- what the statements of a session see, and what has been committed
pub record Session (T : Type 0) : Type 0 where
  pub now : T
  pub saved : T

abbrev pub commit : {T : Type 0} → Session T → Session T
commit s = record { now = s.now; saved = s.now }

abbrev pub rollback : {T : Type 0} → Session T → Session T
rollback s = record { now = s.saved; saved = s.saved }
