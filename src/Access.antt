-- ===== src/Access.antt =====
-- apicrud/access.py: the data that class AccessControl works on. The methods are in the modules
-- below.
pub mod Load
pub mod Rbac
pub mod Filter
pub mod Role
pub mod ApiKey
use apicrud.Prelude.{Bool, Option, String, List, Char}

-- one entry of `self.policies[resource]`, as load_rbac stores it; `actions` is a set
pub record Policy : Type 0 where
  pub principal : String
  pub resource : String
  pub actions : List Char

-- an entry of private_resources in rbac.yaml
pub record PrivateResource : Type 0 where
  pub resource : String
  pub attr : String

-- the policies by resource: a dict, in the order of the file
abbrev pub Policies : Type 0
Policies = List (String × List Policy)

-- the attributes of an AccessControl object. `model_has_privacy` is hasattr(self.model, 'privacy').
pub record AccessControl : Type 0 where
  pub policies : Policies
  pub privacy_levels : List String
  pub private_res : PrivateResource
  pub resource : Option String
  pub model_has_privacy : Bool
  pub auth : Option (List String)
  pub uid : Option String
  pub account_id : Option String
  pub auth_method : Option String
  pub identity : Option String
  pub apikey_id : Option String
  pub auth_ids : List String

-- what a query by id finds: the id, the columns that the model has (None is NULL), and the
-- referrer of the record's owner
pub record Row : Type 0 where
  pub id : String
  pub columns : List (String × Option String)
  pub owner_referrer : Option String
