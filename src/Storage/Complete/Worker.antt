-- ===== src/Storage/Complete/Worker.antt =====
-- apicrud/media/storage.py, upload_complete: the calls of the worker.
use apicrud.Prelude.{
  ℕ, ◌<◌, Bool, true, false, Option, none, some, String, List, [], ◌∷◌, ◌≡◌, ◌⊎◌, inl, inr, refl,
  ◌==◌, text_eq, Bool-cases,
}
use apicrud.Python.Result.{Result, ok, err}
use apicrud.Redis.{Redis, get}
use apicrud.Crud.{Controller}
use apicrud.Metrics.{Metrics}
use apicrud.Storage.{FileMeta, Json, StorageApi, meta_key, get_file_meta}
use apicrud.Storage.Vendor.{Presigned, S3}
use apicrud.Storage.Upload.{UploadBody, Upload, ready, get_upload_url}
use apicrud.Storage.Upload.Stored.{get_file_meta-upload}
use apicrud.Storage.Complete.{answered, complete, complete_if, upload_complete}

module _ {B : Type 0} (r : Redis B) (json : Json) (api : StorageApi)
    (service metrics : Metrics) where
  -- the end of a completion: without a call of the worker nothing has changed
  abbrev pub Calls :
      String
      → String
      → Option FileMeta
      → r.State
      → r.State × List (Option String × String) × Result ℕ
      → Type 0
  Calls file_id status found s ended =
      ((ended.1 ≡ [])
        × (ended.0 ≡ s)
        × (ended.2 ≡ ok 405)
        × ((found ≡ none) ⊎ ((status == "done") ≡ false)))
      ⊎ ((ended.1 ≡ (api.uid, file_id) ∷ [])
          × ((meta : FileMeta) × (found ≡ some meta))
          × ((status == "done") ≡ true))

  answered_calls :
      (call : Option String × String) (counted : r.State × Result Bool)
      → (answered r json api service metrics call counted).1 ≡ call ∷ []
  answered_calls call (s, err e) = refl
  answered_calls call (s, ok stored) = refl

  complete_if-Calls :
      (file_id status : String) (found : Option FileMeta) (s : r.State)
      → Calls file_id status found s (complete_if r json api service metrics file_id status found s)
  unfolding complete_if complete
  complete_if-Calls file_id status none s = inl (refl, refl, refl, inl refl)
  complete_if-Calls file_id status (some meta) s = elim (Bool-cases (status == "done")) [
    | inl done ↦ rw done (inr (answered_calls _ _, (meta, refl), refl))
    | inr other ↦ rw other (inl (refl, refl, refl, inr refl))
  ]

  -- A completed upload is passed to the worker once, where its metadata is found and the status is
  -- `done`; in every other case the worker is not called, nothing changes and the status is 405.
  pub upload_complete-Calls :
      (up : Bool) (file_id status : String) (s : r.State)
      → Calls file_id status
          (get_file_meta r json api up file_id s)
          s
          (upload_complete r json api service metrics up file_id status s)
  unfolding upload_complete
  upload_complete-Calls up file_id status s = complete_if-Calls file_id status _ s

  found_worker :
      (file_id status : String) (meta : FileMeta) (found : Option FileMeta) (s : r.State)
      → found ≡ some meta
      → (status == "done") ≡ true
      → (complete_if r json api service metrics file_id status found s).1 ≡ (api.uid, file_id) ∷ []
  unfolding complete_if complete
  found_worker file_id status meta found s known done = rw known (rw done (answered_calls _ _))

  -- An upload that has been offered, under a new id whose key is free, and is reported as done while the
  -- cache keeps its metadata, is passed to the worker once, under the caller and that id.
  pub upload_reaches_worker :
      (s3 : S3) (c : Controller) (credential_ttl : ℕ) (body : UploadBody) (up : Upload)
      (s : r.State) (post : Presigned) (id : String) (n : ℕ)
      → (get_upload_url r json s3 api c metrics credential_ttl body up true s).1
        ≡ ok (ready post id)
      → get r s (meta_key api.uid up.fresh_id) ≡ none
      → n < api.cache_ttl
      → (upload_complete r json api service metrics true id "done"
          (r.tick (get_upload_url r json s3 api c metrics credential_ttl body up true s).0 n)).1
        ≡ (api.uid, id) ∷ []
  unfolding upload_complete
  upload_reaches_worker s3 c credential_ttl body up s post id n h vacant young =
      let (meta, found, fid, size) =
        get_file_meta-upload r json s3 api c metrics credential_ttl body up s post id n h vacant
          young in
      found_worker id "done" meta _ _ found refl
