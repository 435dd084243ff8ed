-- ===== src/Storage/Vendor.antt =====
-- apicrud/media/storage.py: classes StorageS3 and StorageBackblaze, and the methods of StorageAPI that
-- pass an object on to them. boto3 is a parameter.
use apicrud.Prelude.{
  ℕ, Bool, true, false, Option, none, some, String, ◌&&◌, ◌≡◌, refl, eq_refl, if◌then◌else◌, ◌==◌,
  text_eq,
}
use apicrud.Python.Result.{Exn, Result, ok, err, ◌>>=◌, or_raise}

-- a row of the storage table, with the credentials that it refers to
pub record Volume : Type 0 where
  pub bucket : String
  pub prefix : Option String
  pub uid : String
  pub vendor : String

-- an authorized upload: the fields, as one text, and the URL
pub record Presigned : Type 0 where
  pub fields : String
  pub url : String

-- boto3 and the service behind it: a presigned post, where `none` is a ClientError, and the objects of
-- the buckets
pub record S3 : Type 1 where
  pub State : Type 0
  pub presign : (bucket key : String) (expires_in : ℕ) → Option Presigned
  pub get : State → String → String → Option String
  pub put : State → String → String → String → State
  pub delete : State → String → String → State
  pub get-put :
      (s : State) (bucket key content b k : String)
      → get (put s bucket key content) b k
        ≡ (if b == bucket && k == key then some content else get s b k)
  pub get-delete :
      (s : State) (bucket key b k : String)
      → get (delete s bucket key) b k ≡ (if b == bucket && k == key then none else get s b k)

-- what a vendor's get_upload_url returns: a status, or an upload with status 201
pub data Offer : Type 0 where
  turned_down : ℕ → Offer
  offered : Presigned → Offer

-- StorageBackblaze.get_upload_url, on an object that was made without a session of the database
unfoldable pub backblaze_upload_url : Result Offer
backblaze_upload_url = err Exn.attribute_error

abbrev pub offer_of : Option Presigned → Offer
offer_of none = turned_down 405
offer_of (some post) = offered post

module _ (s3 : S3) where
  -- StorageS3.get_upload_url
  unfoldable pub s3_upload_url : ℕ → (bucket key : String) → Offer
  s3_upload_url credential_ttl bucket key = offer_of (s3.presign bucket key credential_ttl)

  -- StorageS3.put_object, get_object and del_object
  unfoldable pub s3_put : String → String → String → s3.State → s3.State
  s3_put bucket key content s = s3.put s bucket key content

  unfoldable pub s3_get : String → String → s3.State → Result String
  s3_get bucket key s = or_raise (s3.get s bucket key) Exn.response_error

  unfoldable pub s3_del : String → String → s3.State → s3.State
  s3_del bucket key s = s3.delete s bucket key

  -- StorageAPI.get_object: None for another vendor; without a volume, its variable is unbound
  unfoldable pub get_object : Option Volume → String → s3.State → Result (Option String)
  get_object none key s = err Exn.unbound_error
  get_object (some v) key s =
      if v.vendor == "aws"
      then s3_get v.bucket key s >>= (λ content. ok (some content))
      else ok none

  unfoldable pub put_object : Option Volume → String → String → s3.State → Result s3.State
  put_object none key content s = err Exn.unbound_error
  put_object (some v) key content s =
      ok (if v.vendor == "aws" then s3_put v.bucket key content s else s)

  unfoldable pub del_object : Option Volume → String → s3.State → Result s3.State
  del_object none key s = err Exn.unbound_error
  del_object (some v) key s = ok (if v.vendor == "aws" then s3_del v.bucket key s else s)

  -- What is put on a volume of the vendor `aws` is what the volume gives for its path afterwards, and
  -- what it gives for every other path stays as it is.
  pub get_object-put_object :
      (v : Volume) (key other content : String) (s : s3.State)
      → (v.vendor == "aws") ≡ true
      → (put_object (some v) key content s >>= get_object (some v) other)
        ≡ (if other == key then ok (some content) else get_object (some v) other s)
  unfolding put_object get_object s3_put s3_get
  get_object-put_object v key other content s aws = rw aws (
      rw (s3.get-put s v.bucket key content v.bucket other, eq_refl v.bucket)
        (split_test (other == key)))
    where
      split_test :
          (b : Bool)
          → (or_raise (if b then some content else s3.get s v.bucket other) Exn.response_error
              >>= (λ found. ok (some found)))
            ≡ (if b
                then ok (some content)
                else (or_raise (s3.get s v.bucket other) Exn.response_error
                    >>= (λ found. ok (some found))))
      split_test true = refl
      split_test false = refl
