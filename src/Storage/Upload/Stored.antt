-- ===== src/Storage/Upload/Stored.antt =====
-- apicrud/media/storage.py, get_upload_url and get_file_meta: the numbers of an upload that is offered,
-- and its metadata in redis.
use Prim.Native.String.{String}
use apicrud.Prelude.{
  ℕ, ◌≤◌, ◌<◌, Bool, true, false, not, Option, none, some, ◌≡◌, sym, ap, ◌∙◌, subst, arith, inl,
  inr, ◌==◌, text_eq, number_eq, eq_refl, Bool-cases, lt→ltb,
}
use apicrud.Prelude.Int.{pos, leb_ℤ}
use apicrud.Python.Result.{Result, ok}
use apicrud.Redis.{Redis, get, text, set_nx_free, get-tick_put}
use apicrud.Grants.{Limit, number}
use apicrud.Crud.{Controller}
use apicrud.Metrics.{Metrics}
use apicrud.Storage.{FileMeta, Json, StorageApi, meta_key, meta_of, get_file_meta, update_file_meta}
use apicrud.Storage.Vendor.{Presigned, S3}
use apicrud.Storage.Upload.{
  UploadBody, Album, Upload, ready, reaches, over, exceeds, meta_for, get_upload_url,
}
use apicrud.Storage.Upload.Allowed.{get_upload_url-IsAllowed}

reached : (n z : ℕ) → reaches n (number (pos z)) ≡ ok false → n < z
unfolding reaches
reached n z h = let e : leb_ℤ (pos z) (pos n) ≡ false = cc h in ground arith

within : (n z : ℕ) → exceeds (some n) (number (pos z)) ≡ ok false → n ≤ z
unfolding exceeds over
within n z h = elim (Bool-cases (n == 0)) [
  | inl nothing ↦ ground arith
  | inr some_size ↦
      let h' : ◌≡◌ {A = Result Bool} (ok (not (leb_ℤ (pos n) (pos z)))) (ok false) =
        rw some_size at h in
      let e : not (leb_ℤ (pos n) (pos z)) ≡ false = cc h' in ground arith
]

reaches-false :
    (n z : ℕ) (limit : Limit) → limit ≡ number (pos z) → reaches n limit ≡ ok false → n < z
reaches-false n z limit e h =
    let h' : reaches n (number (pos z)) ≡ ok false = rw e at h in reached n z h'

exceeds-false :
    (n z : ℕ) (size : Option ℕ) (limit : Limit)
    → size ≡ some n
    → limit ≡ number (pos z)
    → exceeds size limit ≡ ok false
    → n ≤ z
exceeds-false n z size limit e e' h = within n z (rw (e, e') at h)

module _ {B : Type 0} (r : Redis B) (json : Json) (api : StorageApi) where
  get_file_meta-update :
      (id : String) (meta : FileMeta) (s : r.State) (n : ℕ)
      → get r s (meta_key api.uid id) ≡ none
      → n < api.cache_ttl
      → get_file_meta r json api true id (r.tick (update_file_meta r json api true id meta s) n)
        ≡ some meta
  unfolding get_file_meta update_file_meta meta_of
  get_file_meta-update id meta s n vacant young =
      rw
        (set_nx_free r s (meta_key api.uid id) (text (json.dumps meta)) (some api.cache_ttl) vacant)
        (rw
          (
            get-tick_put r s (meta_key api.uid id) (text (json.dumps meta)) (some api.cache_ttl) n
                (meta_key api.uid id),
            eq_refl (meta_key api.uid id),
          )
          (rw (lt→ltb n api.cache_ttl young) (json.loads-dumps meta)))

module _ {B : Type 0} (r : Redis B) (json : Json) (s3 : S3) (api : StorageApi) (c : Controller)
    (metrics : Metrics) (credential_ttl : ℕ) (body : UploadBody) (up : Upload) where
  -- Where the limits are numbers, an album to which an upload is offered has fewer pictures than it may
  -- have, and the size that the caller gives is at most the greatest that is granted.
  pub upload_bounds :
      (redis_up : Bool) (s : r.State) (post : Presigned) (id : String) (album : Album)
      (most largest size : ℕ)
      → (get_upload_url r json s3 api c metrics credential_ttl body up redis_up s).1
        ≡ ok (ready post id)
      → up.album ≡ some album
      → up.granted "album_size" ≡ number (pos most)
      → up.granted "media_size_max" ≡ number (pos largest)
      → body.size ≡ some size
      → (album.pictures < most) × (size ≤ largest)
  upload_bounds redis_up s post id album most largest size h known room_granted size_granted given =
      let (v, found, name, ctype, meta, allowed, same, state) =
        get_upload_url-IsAllowed r json s3 api c metrics credential_ttl body up redis_up s post id
          h in
      let one : found ≡ album = cc (allowed.in_album, known) in
      (
        subst (λ (a : Album). a.pictures < most) one
            (reaches-false found.pictures most _ room_granted allowed.room),
        exceeds-false size largest body.size _ given size_granted allowed.sized,
      )

  -- The metadata of an upload that is offered is what the id finds, for as long as the cache keeps it.
  pub get_file_meta-upload :
      (s : r.State) (post : Presigned) (id : String) (n : ℕ)
      → (get_upload_url r json s3 api c metrics credential_ttl body up true s).1
        ≡ ok (ready post id)
      → get r s (meta_key api.uid up.fresh_id) ≡ none
      → n < api.cache_ttl
      → (meta : FileMeta) × (get_file_meta r json api true id
            (r.tick (get_upload_url r json s3 api c metrics credential_ttl body up true s).0 n)
          ≡ some meta)
        × (meta.fid ≡ id)
        × (meta.size ≡ body.size)
  unfolding meta_for
  get_file_meta-upload s post id n h vacant young =
      let (v, album, name, ctype, meta, allowed, same, state) =
        get_upload_url-IsAllowed r json s3 api c metrics credential_ttl body up true s post id h in
      (
        meta,
        ap
              (λ (k : String).
                get_file_meta r json api true k (
                  r.tick (get_upload_url r json s3 api c metrics credential_ttl body up true s).0
                    n))
              same
            ∙ ap (λ (t : r.State). get_file_meta r json api true up.fresh_id (r.tick t n)) state
            ∙ get_file_meta-update r json api up.fresh_id meta s n vacant young,
        ap (λ (m : FileMeta). m.fid) allowed.described ∙ sym same,
        ap (λ (m : FileMeta). m.size) allowed.described,
      )
