-- ===== src/Storage/S3.antt =====
-- backend/src/storage/s3/s3-storage.provider.ts: the provider for S3-compatible storages. The client
-- of the SDK is a parameter: what it answers in each state of the storage, and that state behind a
-- call that may change it. What is logged is left out.
pub mod Contract
pub mod Boot
mod Tests
use Prim.Native.String.{String}
use text.Mathlib.Text.{◌==◌ as string_eq}
use docuai.Base.{
  ℕ, ◌+◌, ◌*◌, Bool, true, false, not, ◌||◌, Option, none, some, List, [], ◌∷◌, Text, any, ◌==◌,
  if◌then◌else◌, is_some, get_or_else, is_empty, strip_quotes, Result, ok, err,
}
use docuai.Schema.{StorageKey}
use docuai.Errors.{AppException}
use docuai.Storage.{
  UploadUrlRequest, DownloadUrlRequest, UrlMethod, PresignedUrl, StoredObjectMetadata, ObjectBody,
  StoredObjectStream, StorageProvider, storage_exception,
}

pub record S3LikeError : Type 0 where
  pub name : Option String
  pub http_status_code : Option ℕ

pub record HeadObjectOutput : Type 0 where
  pub content_length : Option ℕ
  pub content_type : Option Text
  pub etag : Option Text
  pub last_modified : Option ℕ

pub record GetObjectOutput : Type 0 where
  pub body : Option ObjectBody
  pub content_length : Option ℕ
  pub content_type : Option Text

pub data SignedCommand : Type 0 where
  put_object : StorageKey → (content_type : Text) (content_length : ℕ) → SignedCommand
  get_object : StorageKey → (content_type content_disposition : Option Text) → SignedCommand

pub record S3Client (S : Type 0) : Type 0 where
  pub send_head_bucket : S → Result S3LikeError (Unit {0})
  pub send_create_bucket : S → Result S3LikeError (Unit {0}) × S
  pub send_head_object : StorageKey → S → Result S3LikeError HeadObjectOutput
  pub send_get_object : StorageKey → S → Result S3LikeError GetObjectOutput
  pub send_delete_object : StorageKey → S → Result S3LikeError (Unit {0}) × S
  pub get_signed_url :
      SignedCommand → (expires_in : ℕ) (signable_headers : List String) → Result S3LikeError String

abbrev not_found_names : List String
not_found_names = "NotFound" ∷ "NoSuchKey" ∷ "NoSuchBucket" ∷ []

abbrev has_status : Option ℕ → ℕ → Bool
has_status none n = false
has_status (some m) n = m == n

pub is_not_found : S3LikeError → Bool
is_not_found e =
    any (string_eq (get_or_else e.name "")) not_found_names || has_status e.http_status_code 404

-- Every failure of the SDK is the same exception to the caller.
abbrev pub wrap : S3LikeError → AppException
wrap e = storage_exception

-- The metadata in the answer to a HEAD request. An empty ETag counts as none.
pub head_metadata : HeadObjectOutput → StoredObjectMetadata
head_metadata head = record {
  size = get_or_else head.content_length 0;
  content_type = head.content_type;
  etag = elim head.etag [
    | none ↦ none
    | some t ↦ if is_empty t then none else some (strip_quotes t)
  ];
  last_modified = head.last_modified;
}

pub body_stream : GetObjectOutput → Option StoredObjectStream
body_stream r = elim r.body [
  | none ↦ none
  | some b ↦ some (record { body = b; size = r.content_length; content_type = r.content_type })
]

-- A header that is given and not empty.
abbrev given : Option Text → Option Text
given none = none
given (some t) = if is_empty t then none else some t

-- The only way in which `onModuleInit` fails.
pub data BootError : Type 0 where
  bucket_missing : BootError

module _ {S : Type 0} (client : S3Client S) where
  -- A failure is logged, unless another instance was faster, and swallowed either way.
  create_missing_bucket : S → Result BootError (Unit {0}) × S
  create_missing_bucket s = let (r, s') = client.send_create_bucket s in (ok tt, s')

  pub on_module_init : (auto_create_bucket : Bool) → S → Result BootError (Unit {0}) × S
  unfolding create_missing_bucket
  on_module_init auto_create_bucket s = elim (client.send_head_bucket s) [
    | ok t ↦ (ok tt, s)
    | err e ↦
        if not (is_not_found e)
        then (ok tt, s)
        else if not auto_create_bucket
        then (err bucket_missing, s)
        else create_missing_bucket s
  ]

  pub head_object : StorageKey → S → Result AppException (Option StoredObjectMetadata)
  head_object key s = elim (client.send_head_object key s) [
    | ok head ↦ ok (some (head_metadata head))
    | err e ↦ if is_not_found e then ok none else err (wrap e)
  ]

  pub object_exists : StorageKey → S → Result AppException Bool
  object_exists key s = elim (head_object key s) [ ok found ↦ ok (is_some found) | err e ↦ err e ]

  pub get_object_stream : StorageKey → S → Result AppException (Option StoredObjectStream)
  get_object_stream key s = elim (client.send_get_object key s) [
    | ok r ↦ ok (body_stream r)
    | err e ↦ if is_not_found e then ok none else err (wrap e)
  ]

  pub delete_object : StorageKey → S → Result AppException (Unit {0}) × S
  delete_object key s =
      let (r, s') = client.send_delete_object key s in
      elim r [ ok t ↦ (ok tt, s') | err e ↦ (if is_not_found e then ok tt else err (wrap e), s') ]

  pub is_healthy : S → Bool
  is_healthy s = elim (client.send_head_bucket s) [ ok t ↦ true | err e ↦ false ]

  presign : SignedCommand → (expires_in : ℕ) (headers : List String) → Result AppException String
  presign command expires_in headers = elim (client.get_signed_url command expires_in headers) [
    | ok url ↦ ok url
    | err e ↦ err (wrap e)
  ]

  -- The answer to a request for a URL; `expiry` reads the clock.
  signed :
      UrlMethod
      → (expires_in now : ℕ) → Result AppException String
      → Result AppException PresignedUrl
  signed method expires_in now (err e) = err e
  signed method expires_in now (ok url) = ok (record {
    url = url;
    method = method;
    expires_at = now + expires_in * 1000;
    expires_in_seconds = expires_in;
  })

  pub create_upload_url : (now : ℕ) → UploadUrlRequest → Result AppException PresignedUrl
  unfolding presign signed
  create_upload_url now r = signed UrlMethod.put r.expires_in_seconds now (
      presign (put_object r.key r.content_type r.content_length) r.expires_in_seconds
        ("content-type" ∷ "content-length" ∷ []))

  pub create_download_url : (now : ℕ) → DownloadUrlRequest → Result AppException PresignedUrl
  unfolding presign signed
  create_download_url now r = signed UrlMethod.get r.expires_in_seconds now (
      presign
        (get_object r.key (given r.response_content_type) (given r.response_content_disposition))
        r.expires_in_seconds [])

  -- The provider that the upload service is given, while the storage is in one state.
  abbrev pub provider : (now : ℕ) → S → StorageProvider
  provider now s = record {
    create_upload_url = create_upload_url now;
    create_download_url = create_download_url now;
    head_object = λ key. head_object key s;
  }
