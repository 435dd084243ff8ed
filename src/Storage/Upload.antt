-- ===== src/Storage/Upload.antt =====
-- apicrud/media/storage.py: StorageAPI.get_upload_url. The proofs are in the modules below.
pub mod Allowed
pub mod Stored
use Prim.Native.String.{String}
use apicrud.Prelude.{
  ℕ, ◌+◌, Bool, true, false, not, ◌&&◌, ◌||◌, Option, none, some, ◌⧺◌, List, [], ◌∷◌, Char,
  if◌then◌else◌, ◌==◌, text_eq, option_eq, number_eq,
}
use apicrud.Prelude.Int.{ℤ, pos, negsuc, leb_ℤ}
use apicrud.Python.Result.{Exn, Result, ok, err, ◌>>=◌, or_raise}
use apicrud.Python.Text.{show, truthy, split, to_list, same_char}
use apicrud.Python.PySet.{contains}
use apicrud.Python.Sort.{text_of}
use apicrud.Redis.{Redis}
use apicrud.Access.{Row}
use apicrud.Grants.{Limit, undefined, number, word}
use apicrud.Crud.{Controller, may}
use apicrud.Python.Float.{parse_float, is_zero}
use apicrud.Metrics.{Metrics, Remaining, whole_credit, real_credit, check}
use apicrud.Storage.{FileMeta, Json, StorageApi, update_file_meta}
use apicrud.Storage.Names.{short_name, unless_bare}
use apicrud.Storage.Vendor.{
  Volume, Presigned, S3, Offer, turned_down, offered, s3_upload_url, backblaze_upload_url,
}

-- the body of a request
pub record UploadBody : Type 0 where
  pub storage_id : Option String
  pub parent_type : Option String
  pub parent_id : Option String
  pub name : Option String
  pub content_type : Option String
  pub duration : Option ℕ
  pub height : Option ℕ
  pub modified : Option String
  pub size : Option ℕ
  pub width : Option ℕ

-- an active album: how many pictures it has, and its row
pub record Album : Type 0 where
  pub pictures : ℕ
  pub row : Row

-- what the call reads: the volume and the album that the database has, what Grants returns, the base64
-- text of a UUID, the id that is drawn and the time of the request
pub record Upload : Type 0 where
  pub volume : Option Volume
  pub album : Option Album
  pub granted : String → Limit
  pub b64 : List Char → String
  pub fresh_id : String
  pub created : String

pub data Ticket : Type 0 where
  refused : ℕ → Ticket
  ready : Presigned → String → Ticket

abbrev pub image_types : List String
image_types = "gif" ∷ "heic" ∷ "jpeg" ∷ "png" ∷ "svg" ∷ []

abbrev pub video_types : List String
video_types = "mp4" ∷ "mpeg" ∷ []

-- resource = body.get('parent_type', 'album')
abbrev pub parent_type_of : UploadBody → String
parent_type_of body = elim body.parent_type [ none ↦ "album" | some t ↦ t ]

-- a name, which `.lower()` wants
unfoldable pub name_of : (List Char → String) → Option String → Result String
name_of b64 none = err Exn.attribute_error
name_of b64 (some name) = short_name b64 name

-- count >= max_size
unfoldable pub reaches : ℕ → Limit → Result Bool
reaches n undefined = err Exn.type_error
reaches n (number z) = ok (leb_ℤ z (pos n))
reaches n (word w) = err Exn.type_error

-- n > limit
unfoldable pub over : ℕ → Limit → Result Bool
over n undefined = err Exn.type_error
over n (number z) = ok (not (leb_ℤ (pos n) z))
over n (word w) = err Exn.type_error

-- a size or a duration that is given, is not 0, and is over the limit
unfoldable pub exceeds : Option ℕ → Limit → Result Bool
exceeds none limit = ok false
exceeds (some n) limit = if n == 0 then ok false else over n limit

-- body['content_type'].split('/')[1], where it is true
unfoldable pub second_part : List String → Result (Option String)
second_part [] = err Exn.index_error
second_part (a ∷ []) = err Exn.index_error
second_part (a ∷ b ∷ rest) = ok (some b)

unfoldable pub ctype_of : Option String → Result (Option String)
ctype_of none = ok none
ctype_of (some t) = if t == "" then ok none else second_part (split "/" t)

unfoldable pub is_type : List String → Option String → Bool
is_type types none = false
is_type types (some t) = contains t types

-- the truth value of a credit
abbrev pub has_credit : Option Remaining → Bool
has_credit none = false
has_credit (some (whole_credit z)) = not (is_zero (z, false))
has_credit (some (real_credit x)) = elim (parse_float x) [
  | none ↦ true
  | some value ↦ not (is_zero value)
]

-- storage.prefix if storage.prefix else ''
unfoldable pub or_empty : Option String → String
or_empty none = ""
or_empty (some t) = t

-- the parts of '%s/%s/%s', whose slashes at the ends `strip` takes off
unfoldable pub left_slashes : List Char → List Char
left_slashes [] = []
left_slashes (c ∷ s) = let rest = left_slashes s in if same_char c "/" then rest else c ∷ s

unfoldable pub right_slashes : List Char → List Char
right_slashes [] = []
right_slashes (c ∷ s) = unless_bare c (same_char c "/") (right_slashes s)

unfoldable pub storage_path : Volume → StorageApi → String → String
storage_path v api id = text_of (
    right_slashes
      (left_slashes (to_list (or_empty v.prefix ⧺ ("/" ⧺ (show api.uid ⧺ ("/" ⧺ id)))))))

-- '.' + ctype if ctype else ''
unfoldable pub suffix_of : Option String → String
suffix_of none = ""
suffix_of (some t) = if t == "" then "" else "." ⧺ t

unfoldable pub meta_for :
    UploadBody → Upload → Volume → StorageApi → String → Option String → FileMeta
meta_for body up v api name ctype = record {
  created = up.created;
  ctype = ctype;
  duration = body.duration;
  fid = up.fresh_id;
  height = body.height;
  modified = body.modified;
  name = some name;
  oid = v.uid;
  path = storage_path v api up.fresh_id;
  pid = body.parent_id;
  sid = body.storage_id;
  size = body.size;
  uid = api.uid;
  width = body.width;
}

-- what is decided before the metadata is stored
pub data Decision : Type 0 where
  stop : ℕ → Decision
  go : Presigned → FileMeta → Decision

-- `if test: return …, code`
abbrev pub stop_if : Result Bool → ℕ → Result Decision → Result Decision
stop_if (err e) code next = err e
stop_if (ok true) code next = ok (stop code)
stop_if (ok false) code next = next

-- `if not test`
abbrev pub negated : Result Bool → Result Bool
negated (err e) = err e
negated (ok b) = ok (not b)

abbrev pub without_credit : Result (Option Remaining) → Result Bool
without_credit (err e) = err e
without_credit (ok credit) = ok (not (has_credit credit))

unfoldable pub decision_of : FileMeta → Result Offer → Result Decision
decision_of meta (err e) = err e
decision_of meta (ok (turned_down code)) = ok (stop code)
decision_of meta (ok (offered post)) = ok (go post meta)

module _ {B : Type 0} (r : Redis B) (json : Json) (s3 : S3) (api : StorageApi) (c : Controller)
    (metrics : Metrics) (credential_ttl : ℕ) (body : UploadBody) (up : Upload) where
  -- the branches for a video and for an image; `also` is the test of the duration
  unfoldable pub type_refused : Option String → r.State → Result Bool
  type_refused ctype s =
      if is_type video_types ctype
      then (without_credit (check r metrics "video_daily_total" s) >>= (λ none_left.
          if none_left then ok true else exceeds body.duration (up.granted "video_duration_max")))
      else if is_type image_types ctype
      then without_credit (check r metrics "photo_daily_total" s)
      else ok false

  unfoldable pub by_vendor : Volume → String → Option String → Result Decision
  by_vendor v name ctype =
      if v.vendor == "backblaze"
      then decision_of (meta_for body up v api name ctype) backblaze_upload_url
      else if v.vendor == "aws"
      then decision_of (meta_for body up v api name ctype) (
          ok (
            s3_upload_url s3 credential_ttl v.bucket
              (storage_path v api up.fresh_id ⧺ suffix_of ctype)))
      else ok (stop 405)

  unfoldable pub by_type : Volume → String → Result (Option String) → r.State → Result Decision
  by_type v name (err e) s = err e
  by_type v name (ok ctype) s =
      stop_if (type_refused ctype s) 405
        (stop_if (exceeds body.size (up.granted "media_size_max")) 405 (by_vendor v name ctype))

  unfoldable pub in_album : Volume → String → Option Album → r.State → Result Decision
  in_album v name none s = ok (stop 404)
  in_album v name (some album) s = stop_if (reaches album.pictures (up.granted "album_size")) 405 (
      stop_if (negated (may c "u" (some album.row))) 403
        (by_type v name (ctype_of body.content_type) s))

  -- `dict(…)[resource]`, and the query, which only an album has
  unfoldable pub by_parent : Volume → String → String → r.State → Result Decision
  by_parent v name resource s =
      if resource == "album"
      then in_album v name up.album s
      else if resource == "list" || resource == "message"
      then err Exn.unbound_error
      else err Exn.key_error

  unfoldable pub decide : Option Volume → r.State → Result Decision
  decide none s = ok (stop 404)
  decide (some v) s =
      name_of up.b64 body.name >>= (λ name. by_parent v name (parent_type_of body) s)

  unfoldable pub conclude : Bool → Result Decision → r.State → r.State × Result Ticket
  conclude redis_up (err e) s = (s, err e)
  conclude redis_up (ok (stop code)) s = (s, ok (refused code))
  conclude redis_up (ok (go post meta)) s =
      (update_file_meta r json api redis_up up.fresh_id meta s, ok (ready post up.fresh_id))

  -- `redis_up` says whether redis answers at the end
  unfoldable pub get_upload_url : Bool → r.State → r.State × Result Ticket
  get_upload_url redis_up s = conclude redis_up (decide up.volume s) s
