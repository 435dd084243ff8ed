-- ===== src/Crud/Prepare.antt =====
-- apicrud/basic_crud.py: BasicCRUD.create, up to the INSERT. The lemmas are in the module below.
pub mod Limited
use Prim.Native.String.{String, count}
use apicrud.Prelude.{
  ℕ, Bool, true, false, not, ◌&&◌, ◌||◌, Option, none, some, ◌⧺◌, List, [], ◌∷◌, ◌≡◌, length, ltb,
  if◌then◌else◌, ◌==◌, text_eq, option_eq,
}
use apicrud.Prelude.Int.{ℤ, pos, leb_ℤ}
use apicrud.Python.Result.{Exn, Result, ok, err, ◌>>=◌}
use apicrud.Python.Text.{truthy, last_chars}
use apicrud.Python.Dict.{Dict, lookup, insert, remove}
use apicrud.Python.PySet.{contains}
use apicrud.Access.{AccessControl, Row}
use apicrud.Access.Rbac.{with_permission}
use apicrud.Database.{Tables, Session, commit, rollback}
use apicrud.Grants.{Limit, undefined, number, word}
use apicrud.Crud.{
  Response, Controller, Item, null, text, flag, ids, is_true, columns_of, Outcome, fine, integrity,
  broken, db_abort, chars_of,
}
use apicrud.Crud.Update.{parsed_expiry, with_expiry}
use apicrud.Crud.Related.{update_related}
use apicrud.Crud.Checks.{Checked, stopped, passed, create_contact, is_present}

-- hasattr(self.model, …)
pub record Model : Type 0 where
  pub has_uid : Bool
  pub has_category : Bool
  pub has_status : Bool
  pub has_related : Bool

-- what the call reads: the id and the time, the counts of contacts and of the person's records, what
-- Grants returns, the keys of DEFAULT_GRANTS, the categories of the account and of an event, a new
-- API key, whether the model takes a body, and the lists' records
pub record Making : Type 0 where
  pub fresh_id : String
  pub now : String
  pub strptime : Bool → String → Option String
  pub contacts : Option ℕ
  pub primary_resource : Option String
  pub counted : Option Item → ℕ
  pub limit : Result Limit
  pub default_grants : List String
  pub account_category : Result (Option String)
  pub event_category : Result (Option String)
  pub key_prefix : String
  pub key_secret : String
  pub key_hash : String
  pub takes : Dict Item → Bool
  pub exists_in : String → String → Bool

-- what `create` returns: a response, with the API key where there is a new one
pub record Made : Type 0 where
  pub response : Response
  pub apikey : Option String

abbrev pub answer : ℕ → String → Made
answer code message = record {
  response = record { code = code; id = none; message = message };
  apikey = none;
}

-- how the preparation of a body ends: an answer, an exception, or the body that is inserted
pub data Prepared : Type 0 where
  returns : Made → Prepared
  raises : Exn → Prepared
  inserts : Dict Item → Prepared

abbrev pub item_of : Option String → Item
item_of none = null
item_of (some t) = text t

abbrev pub text_of_item : Option Item → Option String
text_of_item none = none
text_of_item (some null) = none
text_of_item (some (text t)) = some t
text_of_item (some (flag b)) = none
text_of_item (some (ids xs)) = none

-- `if hasattr(self.model, 'uid') and not body.get('uid')`
unfoldable pub with_uid : Model → AccessControl → Dict Item → Dict Item
with_uid model acc body =
    if model.has_uid && not (is_true (lookup "uid" body))
    then insert "uid" (item_of acc.uid) body
    else body

-- the resource, in the plural
unfoldable pub grant_name : String → String
grant_name resource = if last_chars 1 resource == "s" then resource else resource ⧺ "s"

-- count >= limit
unfoldable pub at_limit : ℕ → Limit → Result Bool
at_limit n undefined = err Exn.type_error
at_limit n (number z) = ok (leb_ℤ z (pos n))
at_limit n (word w) = err Exn.type_error

-- len(body[related]), where it is related in body and in limit_related
abbrev pub longer : ℕ → Item → Result Bool
longer limit null = err Exn.type_error
longer limit (text t) = ok (ltb limit (count t))
longer limit (flag b) = err Exn.type_error
longer limit (ids members) = ok (ltb limit (length members))

abbrev pub is_too_long : Option ℕ → Option Item → Result Bool
is_too_long limit none = ok false
is_too_long none (some item) = ok false
is_too_long (some limit) (some item) = longer limit item

abbrev pub unless_long : Result Bool → Result (Option (Dict Item)) → Result (Option (Dict Item))
unless_long (err e) rest = err e
unless_long (ok true) rest = ok none
unless_long (ok false) rest = rest

-- `for related in self.model.__rest_related__`: the body without them, or none where one is too long
unfoldable pub without_related : Dict ℕ → List String → Dict Item → Result (Option (Dict Item))
without_related limits [] body = ok (some body)
without_related limits (attr ∷ attrs) body =
    unless_long (is_too_long (lookup attr limits) (lookup attr body))
      (without_related limits attrs (remove attr body))

-- related_items
abbrev pub add_item : String → Option Item → List (String × Item) → List (String × Item)
add_item attr none items = items
add_item attr (some item) items = (attr, item) ∷ items

unfoldable pub related_items : List String → Dict Item → List (String × Item)
related_items [] body = []
related_items (attr ∷ attrs) body = add_item attr (lookup attr body) (related_items attrs body)

module _ (c : Controller) (model : Model) (m : Making) (limits : Dict ℕ) where
  -- the fields of a new API key
  unfoldable pub with_apikey : Dict Item → Prepared
  with_apikey body =
      if c.resource == "apikey"
      then (if is_present (lookup "name" body)
          then inserts
              (insert "hashvalue" (text m.key_hash) (insert "prefix" (text m.key_prefix) body))
          else raises Exn.key_error)
      else inserts body

  unfoldable pub related_checked : Result (Option (Dict Item)) → Prepared
  related_checked (err e) = raises e
  related_checked (ok none) = returns (answer 405 "limit exceeded")
  related_checked (ok (some body)) = with_apikey body

  -- `if grant in DEFAULT_GRANTS and count >= limit`
  unfoldable pub over_limit : Dict Item → Limit → Result Bool
  over_limit body limit =
      if contains (grant_name c.resource) m.default_grants
      then at_limit (m.counted (lookup "uid" body)) limit
      else ok false

  unfoldable pub unless_over : Dict Item → Result Bool → Prepared
  unless_over body (err e) = raises e
  unless_over body (ok true) = returns (answer 405 "user limit exceeded")
  unless_over body (ok false) =
      related_checked
        (if model.has_related then without_related limits c.rest_related body else ok (some body))

  -- body.get('status', 'active')
  unfoldable pub with_status : Dict Item → Dict Item
  with_status body =
      if model.has_status && not (is_present (lookup "status" body))
      then insert "status" (text "active") body
      else body

  unfoldable pub with_limit : Dict Item → Prepared
  with_limit body =
      unless_over (with_status body) (do limit ← m.limit; over_limit (with_status body) limit)

  unfoldable pub with_category : Dict Item → Result (Option String) → Prepared
  with_category body (err e) = raises e
  with_category body (ok category) = with_limit (insert "category_id" (item_of category) body)

  -- the default category
  unfoldable pub categorized : Dict Item → Prepared
  categorized body =
      if not (is_true (lookup "category_id" body)) && model.has_category
      then (if truthy c.acc.account_id
          then with_category body m.account_category
          else if is_true (lookup "event_id" body)
          then with_category body m.event_category
          else returns (answer 403 "access denied"))
      else with_limit body

  abbrev pub permission : Dict Item → Result Bool
  permission body =
      with_permission c.person_exists c.acc "c" none (text_of_item (lookup "uid" body))
        m.primary_resource (text_of_item (lookup "event_id" body))

  unfoldable pub if_permitted : Dict Item → Result Bool → Prepared
  if_permitted body (err e) = raises e
  if_permitted body (ok false) = returns (answer 403 "access denied")
  if_permitted body (ok true) = categorized body

  unfoldable pub if_dated : Option (Dict Item) → Prepared
  if_dated none = returns (answer 405 "invalid date")
  if_dated (some body) =
      let body' = with_uid model c.acc body in if_permitted body' (permission body')

  -- behind the checks of a contact
  unfoldable pub prepare : Dict Item → Prepared
  prepare body =
      if is_present (lookup "id" body)
      then returns (answer 405 "id is a read-only property")
      else (let body' = insert "created" (text m.now) (insert "id" (text m.fresh_id) body) in
          if_dated (with_expiry body' (parsed_expiry m.strptime (lookup "expires" body'))))

  unfoldable pub after_contact : Result Checked → Prepared
  after_contact (err e) = raises e
  after_contact (ok (stopped response)) = returns (record { response = response; apikey = none })
  after_contact (ok (passed body)) = prepare body

  unfoldable pub prepared_body : Dict Item → Prepared
  prepared_body body =
      if c.resource == "contact"
      then after_contact (create_contact c.acc m.contacts body)
      else prepare body
