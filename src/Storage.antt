-- ===== src/Storage.antt =====
-- apicrud/media/storage.py: class StorageAPI, its records and the metadata of a file in redis. The
-- other methods and the vendors' classes are in the modules below.
pub mod Names
pub mod Vendor
pub mod Upload
pub mod Complete
pub mod Album
use apicrud.Prelude.{ℕ, Bool, true, false, Option, none, some, String, ◌⧺◌, ◌≡◌, if◌then◌else◌}
use apicrud.Python.Text.{show, last_chars}
use apicrud.Redis.{Redis, Value, text, sealed, int, real, get, set_nx}

-- the metadata of an object to be uploaded
pub record FileMeta : Type 0 where
  pub created : String
  pub ctype : Option String
  pub duration : Option ℕ
  pub fid : String
  pub height : Option ℕ
  pub modified : Option String
  pub name : Option String
  pub oid : String
  pub path : String
  pub pid : Option String
  pub sid : Option String
  pub size : Option ℕ
  pub uid : Option String
  pub width : Option ℕ

-- json.dumps and json.loads on metadata; `none` is an exception
pub record Json : Type 0 where
  pub dumps : FileMeta → String
  pub loads : String → Option FileMeta
  pub loads-dumps : (meta : FileMeta) → loads (dumps meta) ≡ some meta

-- the attributes of the object
pub record StorageApi : Type 0 where
  pub cache_ttl : ℕ
  pub uid : Option String

-- 'fid:%s:%s' % (self.uid, file_id[-8:])
unfoldable pub meta_key : Option String → String → String
meta_key uid file_id = "fid:" ⧺ (show uid ⧺ (":" ⧺ last_chars 8 file_id))

-- json.loads of what the key holds, with every exception caught
unfoldable pub meta_of : {B : Type 0} → Json → Option (Value B) → Option FileMeta
meta_of json none = none
meta_of json (some (text t)) = json.loads t
meta_of json (some (sealed b)) = none
meta_of json (some (int z)) = none
meta_of json (some (real x)) = none

module _ {B : Type 0} (r : Redis B) (json : Json) (api : StorageApi) where
  -- `up` says whether redis answers: its exceptions are caught
  unfoldable pub get_file_meta : Bool → String → r.State → Option FileMeta
  get_file_meta up file_id s =
      if up then meta_of json (get r s (meta_key api.uid file_id)) else none

  unfoldable pub update_file_meta : Bool → String → FileMeta → r.State → r.State
  update_file_meta up file_id meta s =
      if up
      then (set_nx r s (meta_key api.uid file_id) (text (json.dumps meta)) (some api.cache_ttl)).0
      else s

  unfoldable pub del_file_meta : Bool → String → r.State → r.State
  del_file_meta up file_id s = if up then r.delete s (meta_key api.uid file_id) else s
