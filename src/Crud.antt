-- ===== src/Crud.antt =====
-- apicrud/basic_crud.py: class BasicCRUD, what the operations share. They are in the modules below.
pub mod Delete
pub mod Related
pub mod Dates
pub mod Update
pub mod Get
pub mod Patterns
pub mod Checks
pub mod Contact
pub mod Prepare
pub mod Create
use Prim.Native.String.{String}
use apicrud.Prelude.{
  ℕ, Bool, true, false, not, Option, none, some, List, [], ◌∷◌, Char, ◌==◌, text_eq,
}
use apicrud.Python.Dict.{Dict}
use apicrud.Python.Result.{Result}
use apicrud.Access.{AccessControl, Row}
use apicrud.Access.Rbac.{with_permission}

-- the dict and the status that a controller returns
pub record Response : Type 0 where
  pub code : ℕ
  pub id : Option String
  pub message : String

-- a controller: its resource, hasattr(self.model, …), the caller's AccessControl for its model, and
-- whether a person has an identity
pub record Controller : Type 0 where
  pub resource : String
  pub acc : AccessControl
  pub rest_related : List String
  pub person_exists : Option String → Bool

-- AccessControl(model=self.model).with_permission(access, query=query)
abbrev pub may : Controller → Char → Option Row → Result Bool
may c access found = with_permission c.person_exists c.acc access (some found) none none none

-- db_abort
abbrev pub db_abort : Response
db_abort = record { code = 500; id = none; message = "DB operational error" }

abbrev pub denied : String → Response
denied id = record { code = 403; id = some id; message = "access denied" }

-- a value of a request's body
pub data Item : Type 0 where
  null : Item
  text : String → Item
  flag : Bool → Item
  ids : List String → Item

-- set(text), as a list
unfoldable pub chars_of : String → List String
chars_of String.[] = []
chars_of (String.◌∷◌ c s) = String.◌∷◌ c "" ∷ chars_of s

-- the truth value of an item
abbrev pub is_true : Option Item → Bool
is_true none = false
is_true (some null) = false
is_true (some (text t)) = not (t == "")
is_true (some (flag b)) = b
is_true (some (ids [])) = false
is_true (some (ids (x ∷ xs))) = true

-- what a column takes: a truth value is stored as a digit, and a list is no value
abbrev pub column_value : Item → Option (Option String)
column_value null = some none
column_value (text t) = some (some t)
column_value (flag true) = some (some "1")
column_value (flag false) = some (some "0")
column_value (ids xs) = none

abbrev add_column :
    String → Option (Option String) → Option (Dict (Option String)) → Option (Dict (Option String))
add_column key none cols = none
add_column key (some v) none = none
add_column key (some v) (some cols) = some ((key, v) ∷ cols)

-- the columns of a body; `none` is an exception of SQLAlchemy
unfoldable pub columns_of : Dict Item → Option (Dict (Option String))
columns_of [] = some []
columns_of ((key, item) ∷ body) = add_column key (column_value item) (columns_of body)

-- how the database takes the statements of an operation: without an exception, with an
-- IntegrityError, or with another one
pub data Outcome : Type 0 where
  fine integrity broken : Outcome
