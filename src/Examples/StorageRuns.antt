-- ===== src/Examples/StorageRuns.antt =====
-- An upload of a picture to an album, which is completed.
use Prim.Native.String.{String}
use apicrud.Prelude.{
  true, false, Option, none, some, [], ◌∷◌, ◌≡◌, refl, arith, if◌then◌else◌, ◌==◌, ◌&&◌, text_eq,
  number_eq,
}
use apicrud.Prelude.Int.{pos}
use apicrud.Python.Result.{Result, ok}
use apicrud.Python.Text.{show, truthy, last_chars, split, to_list, in_text, glue, replace}
use apicrud.Python.Dict.{lookup}
use apicrud.Redis.{Redis}
use apicrud.Redis.Table.{table, Table, empty_table}
use apicrud.Python.Scan.{lower}
use apicrud.Python.Sort.{text_of}
use apicrud.Python.PySet.{contains, union, minus}
use apicrud.Python.Format.{format}
use apicrud.Python.Regex.{re_fullmatch}
use apicrud.Access.{AccessControl}
use apicrud.Access.Rbac.{
  column, record_owner, read_record, contact_case, is_shared, shared_role, env_of, role_text,
  match_id, resource_matches, split_head, special_case, applies, role_loop, policy_step,
  policy_loop, lookup_policies, or_defaults, rbac_permissions, with_permission,
}
use apicrud.Grants.{Limit, number}
use apicrud.Crud.{Controller}
use apicrud.Metrics.{Metrics, Metric, grant, metric_key, uid_labels, check, check_style, credit}
use apicrud.Session.{Content}
use apicrud.Storage.{FileMeta, StorageApi, meta_key, update_file_meta}
use apicrud.Storage.Names.{short_name, uuid_name, hex_run, is_hex_any}
use apicrud.Storage.Vendor.{Volume, Presigned, S3, s3_upload_url}
use apicrud.Storage.Upload.{
  UploadBody, Album, Upload, Ticket, ready, name_of, reaches, over, exceeds, ctype_of, second_part,
  is_type, decision_of, type_refused, by_vendor, by_type, in_album, by_parent, decide, conclude,
  get_upload_url, storage_path, left_slashes, right_slashes, suffix_of, or_empty,
}
use apicrud.Storage.Upload.Allowed.{IsAllowed, get_upload_url-IsAllowed}
use apicrud.Storage.Complete.{upload_complete}
use apicrud.Storage.Complete.Worker.{upload_reaches_worker}
use apicrud.Examples.JsonText.{json_text}

abbrev store : Redis Content
store = table Content

abbrev empty : Table Content
empty = empty_table Content

abbrev Buckets : Type 0
Buckets = String → String → Option String

-- the buckets as a function, and a URL for every key
abbrev s3 : S3
s3 = record {
  State = Buckets;
  presign = λ bucket key expires_in. some (record { fields = key; url = bucket });
  get = λ s bucket key. s bucket key;
  put = λ s bucket key content b k. if b == bucket && k == key then some content else s b k;
  delete = λ s bucket key b k. if b == bucket && k == key then none else s b k;
  get-put = λ s bucket key content b k. refl;
  get-delete = λ s bucket key b k. refl;
}

abbrev api : StorageApi
api = record { cache_ttl = 1500; uid = some "u-1" }

abbrev owner : AccessControl
owner = record {
  policies =
      ("album", record { principal = "admin"; resource = "album:.*"; actions = "u" ∷ [] } ∷ [])
      ∷ [];
  privacy_levels = [];
  private_res = record { resource = "list"; attr = "list_id" };
  resource = some "album";
  model_has_privacy = false;
  auth = some ("admin" ∷ []);
  uid = some "u-1";
  account_id = none;
  auth_method = none;
  identity = none;
  apikey_id = none;
  auth_ids = [];
}

abbrev albums : Controller
albums = record {
  resource = "album";
  acc = owner;
  rest_related = [];
  person_exists = λ identity. false;
}

abbrev photos : Metric
photos = record { style = grant; scope = "user"; period = "day"; notify = 60 }

abbrev limits : String → Limit
limits name = if name == "media_size_max" then number (pos 4096) else number (pos 20)

abbrev metrics : Metrics
metrics = record {
  uid = some "u-1";
  metrics = ("photo_daily_total", photos) ∷ [];
  instance_id = "host-1";
  sends = false;
  granted = limits;
}

abbrev body : UploadBody
body = record {
  storage_id = some "x-5";
  parent_type = none;
  parent_id = some "x-2";
  name = some "cat.png";
  content_type = some "image/png";
  duration = none;
  height = none;
  modified = none;
  size = some 1024;
  width = none;
}

abbrev volume : Volume
volume = record { bucket = "media"; prefix = none; uid = "u-1"; vendor = "aws" }

abbrev album : Album
album = record {
  pictures = 3;
  row = record { id = "x-2"; columns = ("uid", some "u-1") ∷ []; owner_referrer = none };
}

abbrev up : Upload
up = record {
  volume = some volume;
  album = some album;
  granted = limits;
  b64 = λ digits. "";
  fresh_id = "x-9";
  created = "2026-01-01";
}

abbrev post : Presigned
post = record { fields = "u-1/x-9.png"; url = "media" }

abbrev offer : Table Content × Result Ticket
offer = get_upload_url store json_text s3 api albums metrics 300 body up true empty

offered_post : offer.1 ≡ ok (ready post "x-9")
unfolding get_upload_url conclude decide by_parent in_album by_type by_vendor type_refused
    decision_of s3_upload_url is_type second_part ctype_of exceeds over reaches name_of short_name
    uuid_name hex_run update_file_meta storage_path left_slashes right_slashes suffix_of or_empty
    check check_style credit metric_key uid_labels lookup contains with_permission rbac_permissions
    read_record record_owner contact_case is_shared shared_role env_of role_text match_id
    resource_matches split_head special_case applies role_loop policy_step policy_loop
    lookup_policies or_defaults union minus show truthy in_text split glue to_list replace format
    re_fullmatch column is_hex_any lower text_of
offered_post = refl

get_upload_url-IsAllowed_example :
    (v : Volume) × (album : Album) × (name : String) × (ctype : Option String) × (meta : FileMeta)
    × IsAllowed store json_text s3 api albums metrics 300 body up empty v album name ctype post meta
    × (◌≡◌ {A = String} "x-9" up.fresh_id)
    × (offer.0 ≡ update_file_meta store json_text api true up.fresh_id meta empty)
get_upload_url-IsAllowed_example =
    get_upload_url-IsAllowed store json_text s3 api albums metrics 300 body up true empty post "x-9"
      offered_post

upload_reaches_worker_example :
    (upload_complete store json_text api metrics metrics true "x-9" "done"
      (store.tick offer.0 600)).1
    ≡ (some "u-1", "x-9") ∷ []
unfolding meta_key show truthy last_chars
upload_reaches_worker_example =
    upload_reaches_worker store json_text api metrics metrics s3 albums 300 body up empty post "x-9"
      600 offered_post refl (omega arith)
