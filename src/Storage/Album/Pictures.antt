-- ===== src/Storage/Album/Pictures.antt =====
-- apicrud/media/storage.py, fetch_album_meta: the pictures that an answer describes.
use apicrud.Prelude.{
  ℕ, Bool, true, false, Option, none, some, String, List, [], ◌∷◌, ◌≡◌, sym, ap, ◌∙◌, inl, inr,
  if◌then◌else◌, ◌==◌, number_eq, text_eq, Bool-cases,
}
use apicrud.Prelude.Int.{ℤ, pos, leb_ℤ}
use apicrud.Python.Result.{Exn, ok, err, >>=-eq-ok}
use apicrud.Python.PySet.{contains}
use apicrud.Python.Text.{split}
use apicrud.Grants.{Limit, number}
use apicrud.Storage.Upload.{video_types}
use apicrud.Storage.Album.{
  Picture, Image, sizes_of, within_limit, is_small, original_of, show_limit, last_size, scaled_last,
  last_sources, image_of, describe_photo, describe_type, describe, add_image, describe_all,
  fetch_album_meta,
}

abbrev pub ids_of : List Image → List String
ids_of [] = []
ids_of (image ∷ images) = image.id ∷ ids_of images

-- the pictures that are no videos
abbrev pub photos : List Picture → List String
photos [] = []
photos (p ∷ pictures) =
    let rest = photos pictures in if contains p.format video_types then rest else p.id ∷ rest

photo_id :
    (limit : Limit) (thumbnail : ℕ) (fitting : List ℤ) (p : Picture) (found : Option Image)
    (rest : List Image)
    → describe_photo limit thumbnail fitting p ≡ ok found
    → ids_of (add_image found rest) ≡ p.id ∷ ids_of rest
unfolding describe_photo image_of
photo_id limit thumbnail fitting p found rest h =
    let (small, e, h1) = >>=-eq-ok (is_small p.height limit) _ h in
    let (original, e1, h2) = >>=-eq-ok (original_of p limit small) _ h1 in
    let (ending, e2, h3) = >>=-eq-ok (last_sources p fitting p.height small) _ h2 in
    let same : some (image_of p thumbnail fitting original ending) ≡ found = cc h3 in
    ap (λ (o : Option Image). ids_of (add_image o rest)) (sym same)

type_id :
    (video : Bool) (limit : Limit) (thumbnail : ℕ) (fitting : List ℤ) (p : Picture)
    (found : Option Image) (rest : List Image)
    → describe_type video limit thumbnail fitting p ≡ ok found
    → ids_of (add_image found rest) ≡ (if video then ids_of rest else p.id ∷ ids_of rest)
unfolding describe_type
type_id true limit thumbnail fitting p found rest h =
    let same : none ≡ found = cc h in
    ap (λ (o : Option Image). ids_of (add_image o rest)) (sym same)
type_id false limit thumbnail fitting p found rest h =
    photo_id limit thumbnail fitting p found rest h

describe_all_ids :
    (limit : Limit) (thumbnail : ℕ) (sizes : List String) (pictures : List Picture)
    (images : List Image)
    → describe_all limit thumbnail sizes pictures ≡ ok images
    → ids_of images ≡ photos pictures
unfolding describe_all describe
describe_all_ids limit thumbnail sizes [] images h = let e : [] ≡ images = cc h in ap ids_of (sym e)
describe_all_ids limit thumbnail sizes (p ∷ pictures) images h =
    let (image, one, h1) = >>=-eq-ok (describe limit thumbnail sizes p) _ h in
    let (others, all, h2) = >>=-eq-ok (describe_all limit thumbnail sizes pictures) _ h1 in
    let (fitting, e, typed) = >>=-eq-ok (sizes_of p.height sizes) _ one in
    let same : add_image image others ≡ images = cc h2 in
    ap ids_of (sym same)
    ∙ type_id (contains p.format video_types) limit thumbnail fitting p image others typed
    ∙ ap (λ (ids : List String). if contains p.format video_types then ids else p.id ∷ ids)
        (describe_all_ids limit thumbnail sizes pictures others all)

-- An album's answer describes its pictures in their order, without the videos.
pub fetch_album_meta_ids :
    (limit : Limit) (thumbnail : ℕ) (sizes : String) (pictures : List Picture) (images : List Image)
    → fetch_album_meta limit thumbnail (some (sizes, pictures)) ≡ ok images
    → ids_of images ≡ photos pictures
unfolding fetch_album_meta
fetch_album_meta_ids limit thumbnail sizes pictures images h =
    describe_all_ids limit thumbnail (split "," sizes) pictures images h

not_small :
    (o : Option ℕ) (most h : ℕ)
    → o ≡ some h
    → (h == 0) ≡ false
    → leb_ℤ (pos h) (pos most) ≡ false
    → is_small o (number (pos most)) ≡ ok false
unfolding is_small within_limit
not_small o most h e nonzero above = rw e (rw nonzero (rw above))

no_last :
    (p : Picture) (o : Option ℕ) (h : ℕ)
    → o ≡ some h
    → last_sources p [] o false ≡ err Exn.index_error
unfolding last_sources scaled_last last_size
no_last p o h e = rw e (elim (Bool-cases (h == 0)) [ inl z ↦ rw z | inr n ↦ rw n ])

-- A picture that is taller than the limit, and smaller than every size of the album, raises an
-- IndexError, and the whole album with it.
pub tall_picture_raises :
    (most h thumbnail : ℕ) (sizes : List String) (p : Picture) (pictures : List Picture)
    → contains p.format video_types ≡ false
    → p.height ≡ some h
    → (h == 0) ≡ false
    → leb_ℤ (pos h) (pos most) ≡ false
    → sizes_of p.height sizes ≡ ok []
    → describe_all (number (pos most)) thumbnail sizes (p ∷ pictures) ≡ err Exn.index_error
unfolding describe_all describe describe_type describe_photo original_of show_limit
tall_picture_raises most h thumbnail sizes p pictures photo tall nonzero above none_fits =
    rw (none_fits) (
      rw (photo)
        (rw (not_small p.height most h tall nonzero above) (rw (no_last p p.height h tall))))
