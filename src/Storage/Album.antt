-- ===== src/Storage/Album.antt =====
-- apicrud/media/storage.py: StorageAPI.fetch_album_meta. The proof is in the module below.
pub mod Pictures
use apicrud.Prelude.{
  ℕ, ◌+◌, Bool, true, false, not, ◌&&◌, ◌||◌, Option, none, some, String, ◌⧺◌, List, [], ◌∷◌, ◌++◌,
  leb, if◌then◌else◌, ◌==◌, text_eq, number_eq,
}
use apicrud.Prelude.Int.{ℤ, pos, negsuc, leb_ℤ}
use apicrud.Python.Result.{Exn, Result, ok, err, ◌>>=◌, or_raise}
use apicrud.Python.Text.{split}
use apicrud.Python.Number.{decimal, show_int, parse_decimal}
use apicrud.Python.PySet.{contains}
use apicrud.Grants.{Limit, undefined, number, word}
use apicrud.Storage.Upload.{video_types}

-- a picture of an album; `format` is its format_original and `cdn_uri` that of its storage
pub record Picture : Type 0 where
  pub id : String
  pub cdn_uri : String
  pub path : String
  pub format : String
  pub height : Option ℕ
  pub caption : Option String
  pub duration : Option ℕ
  pub name : Option String
  pub size : Option ℕ
  pub uid : String
  pub width : Option ℕ

-- an entry of an imageSet
pub record Source : Type 0 where
  pub src_set : String
  pub media : String

-- a descriptor; `kind` is its type
pub record Image : Type 0 where
  pub id : String
  pub description : Option String
  pub duration : Option ℕ
  pub height : Option ℕ
  pub image_set : List Source
  pub name : Option String
  pub original : String
  pub path : String
  pub size : Option ℕ
  pub thumbnail : String
  pub kind : String
  pub uid : String
  pub width : Option ℕ

-- '%s/%s' % (picture.storage.cdn_uri, picture.path)
unfoldable pub uri_path : Picture → String
uri_path p = p.cdn_uri ⧺ ("/" ⧺ p.path)

-- '%s.%s' % (uri_path, fmt) and '%s.%d.%s' % (uri_path, height, fmt)
unfoldable pub plain_uri : Picture → String
plain_uri p = uri_path p ⧺ ("." ⧺ p.format)

unfoldable pub scaled_uri : Picture → String → String
scaled_uri p height = uri_path p ⧺ ("." ⧺ (height ⧺ ("." ⧺ p.format)))

-- not picture.height or n <= picture.height, and its negation with `and`
unfoldable pub fits : Option ℕ → ℤ → Bool
fits none n = true
fits (some h) n = h == 0 || leb_ℤ n (pos h)

-- the list comprehension
unfoldable pub sizes_of : Option ℕ → List String → Result (List ℤ)
sizes_of height [] = ok []
sizes_of height (x ∷ xs) = do
  n ← or_raise (parse_decimal x) Exn.value_error
  rest ← sizes_of height xs
  ok (if fits height n then n ∷ rest else rest)

-- picture.height <= max_height
unfoldable pub within_limit : ℕ → Limit → Result Bool
within_limit h undefined = err Exn.type_error
within_limit h (number z) = ok (leb_ℤ (pos h) z)
within_limit h (word w) = err Exn.type_error

-- not picture.height or picture.height <= max_height
unfoldable pub is_small : Option ℕ → Limit → Result Bool
is_small none limit = ok true
is_small (some h) limit = if h == 0 then ok true else within_limit h limit

-- '%d' % max_height
unfoldable pub show_limit : Limit → Result String
show_limit undefined = err Exn.type_error
show_limit (number z) = ok (show_int z)
show_limit (word w) = err Exn.type_error

unfoldable pub original_of : Picture → Limit → Bool → Result String
original_of p limit true = ok (plain_uri p)
original_of p limit false = show_limit limit >>= (λ height. ok (scaled_uri p height))

unfoldable pub sources : Picture → List ℤ → List Source
sources p [] = []
sources p (n ∷ sizes) =
    record { src_set = scaled_uri p (show_int n); media = "(max-width: " ⧺ (show_int n ⧺ "px)") }
    ∷ sources p sizes

-- sizes[-1]
unfoldable pub last_size : List ℤ → Result ℤ
last_size [] = err Exn.index_error
last_size (n ∷ []) = ok n
last_size (n ∷ m ∷ sizes) = last_size (m ∷ sizes)

unfoldable pub scaled_last : Picture → Result ℤ → Result (List Source)
scaled_last p (err e) = err e
scaled_last p (ok n) = ok (
    record { src_set = scaled_uri p (show_int n); media = "(min-width: " ⧺ (show_int n ⧺ "px)") }
    ∷ [])

unfoldable pub height_sources : Picture → ℕ → List Source
height_sources p h =
    record { src_set = plain_uri p; media = "(max-width: " ⧺ (decimal h ⧺ "px)") }
    ∷ record { src_set = plain_uri p; media = "(min-width: " ⧺ (decimal h ⧺ "px)") }
    ∷ []

-- the last entries: `picture.height and picture.height <= max_height`, or not
unfoldable pub last_sources : Picture → List ℤ → Option ℕ → Bool → Result (List Source)
last_sources p sizes none small = scaled_last p (last_size sizes)
last_sources p sizes (some h) small =
    if not (h == 0) && small then ok (height_sources p h) else scaled_last p (last_size sizes)

unfoldable pub image_of : Picture → ℕ → List ℤ → (original : String) → List Source → Image
image_of p thumbnail_height sizes original ending = record {
  id = p.id;
  description = p.caption;
  duration = p.duration;
  height = p.height;
  image_set = sources p sizes ++ ending;
  name = p.name;
  original = original;
  path = p.path;
  size = p.size;
  thumbnail = scaled_uri p (decimal thumbnail_height);
  kind = (if contains p.format video_types then "video" else "image") ⧺ ("/" ⧺ p.format);
  uid = p.uid;
  width = p.width;
}

unfoldable pub describe_photo : Limit → ℕ → List ℤ → Picture → Result (Option Image)
describe_photo photo_res_max thumbnail_height fitting p = do
  small ← is_small p.height photo_res_max
  original ← original_of p photo_res_max small
  ending ← last_sources p fitting p.height small
  ok (some (image_of p thumbnail_height fitting original ending))

-- `if fmt in Constants.MIME_VIDEO_TYPES: … continue`
unfoldable pub describe_type : Bool → Limit → ℕ → List ℤ → Picture → Result (Option Image)
describe_type true photo_res_max thumbnail_height fitting p = ok none
describe_type false photo_res_max thumbnail_height fitting p =
    describe_photo photo_res_max thumbnail_height fitting p

-- the body of the loop
unfoldable pub describe : Limit → ℕ → List String → Picture → Result (Option Image)
describe photo_res_max thumbnail_height sizes p = do
  fitting ← sizes_of p.height sizes
  describe_type (contains p.format video_types) photo_res_max thumbnail_height fitting p

abbrev pub add_image : Option Image → List Image → List Image
add_image none images = images
add_image (some image) images = image ∷ images

-- `for picture in album.pictures`
unfoldable pub describe_all : Limit → ℕ → List String → List Picture → Result (List Image)
describe_all photo_res_max thumbnail_height sizes [] = ok []
describe_all photo_res_max thumbnail_height sizes (p ∷ pictures) = do
  image ← describe photo_res_max thumbnail_height sizes p
  images ← describe_all photo_res_max thumbnail_height sizes pictures
  ok (add_image image images)

-- the text of the album's sizes and its pictures, if the query finds it
unfoldable pub fetch_album_meta : Limit → ℕ → Option (String × List Picture) → Result (List Image)
fetch_album_meta photo_res_max thumbnail_height none = ok []
fetch_album_meta photo_res_max thumbnail_height (some (sizes, pictures)) =
    describe_all photo_res_max thumbnail_height (split "," sizes) pictures
