-- ===== src/Storage/Upload/Allowed.antt =====
-- apicrud/media/storage.py, get_upload_url: the limits of an upload, and the metadata that it leaves.
use Prim.Native.String.{String}
use apicrud.Prelude.{
  ℕ, Bool, true, false, ◌||◌, Option, none, some, ◌⧺◌, ◌≡◌, refl, ap, inl, inr, if_cases, ◌==◌,
  text_eq, number_eq, Bool-cases,
}
use apicrud.Python.Result.{Result, ok, err, >>=-eq-ok}
use apicrud.Redis.{Redis}
use apicrud.Crud.{Controller, may}
use apicrud.Metrics.{Metrics}
use apicrud.Storage.{FileMeta, Json, StorageApi, update_file_meta}
use apicrud.Storage.Vendor.{
  Volume, Presigned, S3, Offer, turned_down, offered, offer_of, s3_upload_url, backblaze_upload_url,
}
use apicrud.Storage.Upload.{
  UploadBody, Album, Upload, ready, name_of, reaches, exceeds, ctype_of, storage_path, suffix_of,
  meta_for, Decision, stop, go, stop_if, negated, decision_of, type_refused, by_vendor, by_type,
  in_album, by_parent, decide, conclude, get_upload_url,
}

-- What goes on behind a test has passed it.
stop_if-go :
    (test : Result Bool) (code : ℕ) (next : Result Decision) (post : Presigned) (meta : FileMeta)
    → stop_if test code next ≡ ok (go post meta)
    → (test ≡ ok false) × (next ≡ ok (go post meta))
stop_if-go (err e) code next post meta h = absurd (cc)
stop_if-go (ok true) code next post meta h = absurd (cc)
stop_if-go (ok false) code next post meta h = (refl, h)

negated-false : (test : Result Bool) → negated test ≡ ok false → test ≡ ok true
negated-false (err e) h = absurd (cc)
negated-false (ok true) h = refl
negated-false (ok false) h = absurd (cc)

module _ {B : Type 0} (r : Redis B) (json : Json) (s3 : S3) (api : StorageApi) (c : Controller)
    (metrics : Metrics) (credential_ttl : ℕ) (body : UploadBody) (up : Upload) where
  -- an upload to a volume and an album that has passed all tests, and what is stored about it
  pub record IsAllowed (s : r.State) (v : Volume) (album : Album) (name : String)
      (ctype : Option String) (post : Presigned) (meta : FileMeta) : Type 0 where
    pub found : up.volume ≡ some v
    pub in_album : up.album ≡ some album
    pub room : reaches album.pictures (up.granted "album_size") ≡ ok false
    pub permitted : may c "u" (some album.row) ≡ ok true
    pub typed : ctype_of body.content_type ≡ ok ctype
    pub credit : type_refused r json s3 api c metrics credential_ttl body up ctype s ≡ ok false
    pub sized : exceeds body.size (up.granted "media_size_max") ≡ ok false
    pub vendor : (v.vendor == "aws") ≡ true
    pub presigned :
        s3.presign v.bucket (storage_path v api up.fresh_id ⧺ suffix_of ctype) credential_ttl
        ≡ some post
    pub described : meta ≡ meta_for body up v api name ctype

  abbrev Allowed : r.State → Volume → Presigned → FileMeta → Type 0
  Allowed s v post meta =
      (album : Album) × (name : String) × (ctype : Option String) × IsAllowed s v album name ctype
        post meta

  decision_of-go :
      (meta : FileMeta) (offer : Result Offer) (post : Presigned) (meta' : FileMeta)
      → decision_of meta offer ≡ ok (go post meta')
      → (offer ≡ ok (offered post)) × (meta' ≡ meta)
  unfolding decision_of
  decision_of-go meta (err e) post meta' h = absurd (cc)
  decision_of-go meta (ok (turned_down code)) post meta' h = absurd (cc)
  decision_of-go meta (ok (offered given)) post meta' h = (cc h, cc h)

  s3_offer :
      (found : Option Presigned) (post : Presigned)
      → ◌≡◌ {A = Result Offer} (ok (offer_of found)) (ok (offered post))
      → found ≡ some post
  s3_offer none post h = absurd (cc)
  s3_offer (some p) post h = cc h

  by_vendor-go :
      (v : Volume) (name : String) (ctype : Option String) (post : Presigned) (meta : FileMeta)
      → by_vendor r json s3 api c metrics credential_ttl body up v name ctype ≡ ok (go post meta)
      → ((v.vendor == "aws") ≡ true)
        × (s3.presign v.bucket (storage_path v api up.fresh_id ⧺ suffix_of ctype) credential_ttl
            ≡ some post)
        × (meta ≡ meta_for body up v api name ctype)
  unfolding by_vendor
  by_vendor-go v name ctype post meta = elim (Bool-cases (v.vendor == "backblaze")) [
    | inl other ↦ rw other (λ h. absurd (unfold backblaze_upload_url decision_of in cc h))
    | inr not_other ↦ elim (Bool-cases (v.vendor == "aws")) [
      | inl aws ↦
          rw (not_other, aws)
            (λ h.
              let (offer, same) = decision_of-go _ _ post meta h in
              (refl, s3_offer _ post (unfold s3_upload_url in offer), same))
      | inr neither ↦ rw (not_other, neither) (λ h. absurd (cc))
    ]
  ]

  by_type-go :
      (s : r.State) (v : Volume) (album : Album) (name : String) (typed : Result (Option String))
      (post : Presigned) (meta : FileMeta)
      → up.volume ≡ some v
      → up.album ≡ some album
      → reaches album.pictures (up.granted "album_size") ≡ ok false
      → may c "u" (some album.row) ≡ ok true
      → ctype_of body.content_type ≡ typed
      → by_type r json s3 api c metrics credential_ttl body up v name typed s ≡ ok (go post meta)
      → Allowed s v post meta
  unfolding by_type
  by_type-go s v album name (err e) post meta volume known room permitted typed h = absurd (cc)
  by_type-go s v album name (ok ctype) post meta volume known room permitted typed h =
      let (credit, h') = stop_if-go _ 405 _ post meta h in
      let (sized, h2) = stop_if-go _ 405 _ post meta h' in
      let (aws, presigned, described) = by_vendor-go v name ctype post meta h2 in
      (
        album,
        name,
        ctype,
        record {
          found = volume;
          in_album = known;
          room = room;
          permitted = permitted;
          typed = typed;
          credit = credit;
          sized = sized;
          vendor = aws;
          presigned = presigned;
          described = described;
        },
      )

  in_album-go :
      (s : r.State) (v : Volume) (name : String) (found : Option Album) (post : Presigned)
      (meta : FileMeta)
      → up.volume ≡ some v
      → up.album ≡ found
      → in_album r json s3 api c metrics credential_ttl body up v name found s ≡ ok (go post meta)
      → Allowed s v post meta
  unfolding in_album
  in_album-go s v name none post meta volume known h = absurd (cc)
  in_album-go s v name (some album) post meta volume known h =
      let (room, h') = stop_if-go _ 405 _ post meta h in
      let (permitted, h2) = stop_if-go _ 403 _ post meta h' in
      by_type-go s v album name _ post meta volume known room (negated-false _ permitted) refl h2

  by_parent-go :
      (s : r.State) (v : Volume) (name resource : String) (post : Presigned) (meta : FileMeta)
      → up.volume ≡ some v
      → by_parent r json s3 api c metrics credential_ttl body up v name resource s
        ≡ ok (go post meta)
      → Allowed s v post meta
  unfolding by_parent
  by_parent-go s v name resource post meta volume =
      if_cases (λ (d : Result Decision). d ≡ ok (go post meta) → Allowed s v post meta)
        (resource == "album") _ _ (λ here. in_album-go s v name up.album post meta volume refl)
        (λ other.
          if_cases (λ (d : Result Decision). d ≡ ok (go post meta) → Allowed s v post meta)
            (resource == "list" || resource == "message") _ _ (λ known h. absurd (cc))
            (λ unknown h. absurd (cc)))

  decide-go :
      (s : r.State) (found : Option Volume) (post : Presigned) (meta : FileMeta)
      → up.volume ≡ found
      → decide r json s3 api c metrics credential_ttl body up found s ≡ ok (go post meta)
      → (v : Volume) × Allowed s v post meta
  unfolding decide
  decide-go s none post meta volume h = absurd (cc)
  decide-go s (some v) post meta volume h =
      let (name, named, h') = >>=-eq-ok (name_of up.b64 body.name) _ h in
      (v, by_parent-go s v name _ post meta volume h')

  conclude_ready :
      (redis_up : Bool) (decision : Result Decision) (s : r.State) (post : Presigned) (id : String)
      → (conclude r json s3 api c metrics credential_ttl body up redis_up decision s).1
        ≡ ok (ready post id)
      → (meta : FileMeta) × (decision ≡ ok (go post meta))
        × (id ≡ up.fresh_id)
        × ((conclude r json s3 api c metrics credential_ttl body up redis_up decision s).0
            ≡ update_file_meta r json api redis_up up.fresh_id meta s)
  unfolding conclude
  conclude_ready redis_up (err e) s post id h = absurd (cc)
  conclude_ready redis_up (ok (stop code)) s post id h = absurd (cc)
  conclude_ready redis_up (ok (go given meta)) s post id h =
      let e : given ≡ post = cc h in (meta, ap (λ (p : Presigned). ok (go p meta)) e, cc h, refl)

  -- An upload is offered only for a volume of the vendor `aws` and an album which exist, which the caller
  -- may update and which has room, of a type whose daily credit is not used up, and with a size within
  -- the limit; what is stored in redis is the description of the file under its new id.
  pub get_upload_url-IsAllowed :
      (redis_up : Bool) (s : r.State) (post : Presigned) (id : String)
      → (get_upload_url r json s3 api c metrics credential_ttl body up redis_up s).1
        ≡ ok (ready post id)
      → (v : Volume) × (album : Album) × (name : String) × (ctype : Option String)
        × (meta : FileMeta) × IsAllowed s v album name ctype post meta
        × (id ≡ up.fresh_id)
        × ((get_upload_url r json s3 api c metrics credential_ttl body up redis_up s).0
            ≡ update_file_meta r json api redis_up up.fresh_id meta s)
  unfolding get_upload_url
  get_upload_url-IsAllowed redis_up s post id h =
      let (meta, decided, same, state) = conclude_ready redis_up _ s post id h in
      let (v, rest) = decide-go s up.volume post meta refl decided in
      let (album, name, ctype, allowed) = rest in
      (v, album, name, ctype, meta, allowed, same, state)
