-- ===== src/Storage/Complete.antt =====
-- apicrud/media/storage.py: StorageAPI.upload_complete. The proofs are in the module below.
pub mod Worker
use apicrud.Prelude.{
  ℕ, Bool, true, false, not, ◌&&◌, Option, none, some, String, ◌⧺◌, List, [], ◌∷◌, ◌≡◌, ◌⊎◌, inl,
  inr, refl, ap, ◌∙◌, arith, length, if◌then◌else◌, ◌==◌, text_eq, number_eq, Bool-cases,
  Option-cases,
}
use apicrud.Prelude.Int.{pos}
use apicrud.Python.Result.{Exn, Result, ok, err, ◌>>=◌}
use apicrud.Python.Text.{show}
use apicrud.Redis.{Redis}
use apicrud.Metrics.{Metrics, Amount, absent, whole, Send, store}
use apicrud.Storage.{FileMeta, Json, StorageApi, get_file_meta}
use apicrud.Storage.Upload.{image_types, video_types, is_type}

-- value=meta.get('size')
abbrev size_amount : Option ℕ → Amount
size_amount none = absent
size_amount (some n) = whole (pos n)

-- the counter of the day, by the type of the file
unfoldable pub daily_metric : Option String → Option String
daily_metric ctype =
    if is_type image_types ctype
    then some "photo_daily_total"
    else if is_type video_types ctype
    then some "video_daily_total"
    else none

-- `service` and `metrics` are Metrics() and Metrics(uid=self.uid)
module _ {B : Type 0} (r : Redis B) (json : Json) (api : StorageApi)
    (service metrics : Metrics) where
  -- the state of redis, the calls of the worker, and the status
  abbrev pub Completed : Type 0
  Completed = r.State × List (Option String × String) × Result ℕ

  -- `ret` is only logged
  abbrev pub answered : Option String × String → r.State × Result Bool → Completed
  answered call (s, err e) = (s, call ∷ [], err e)
  answered call (s, ok counted) = (s, call ∷ [], ok 201)

  abbrev pub stored_of : r.State × List Send × Result Bool → r.State × Result Bool
  stored_of (s, sent, stored) = (s, stored)

  unfoldable pub count_upload : Option String → r.State → r.State × Result Bool
  count_upload none s = (s, ok true)
  count_upload (some name) s = stored_of (store r metrics name [] absent s)

  unfoldable pub count_bytes : FileMeta → r.State × Result Bool → r.State × Result Bool
  count_bytes meta (s, err e) = (s, err e)
  count_bytes meta (s, ok stored) = count_upload (daily_metric meta.ctype) s

  unfoldable pub complete : String → FileMeta → r.State → Completed
  complete file_id meta s =
      answered (api.uid, file_id)
        (count_bytes meta (
          stored_of (
            store r service "file_upload_bytes_total" (("ctype=" ⧺ show meta.ctype) ∷ [])
              (size_amount meta.size) s)))

  unfoldable pub complete_if : String → String → Option FileMeta → r.State → Completed
  complete_if file_id status none s = (s, [], ok 405)
  complete_if file_id status (some meta) s =
      if status == "done" then complete file_id meta s else (s, [], ok 405)

  unfoldable pub upload_complete : Bool → String → String → r.State → Completed
  upload_complete up file_id status s =
      complete_if file_id status (get_file_meta r json api up file_id s) s
