-- ===== src/Storage.antt =====
-- backend/src/storage/storage.provider.ts: the contract with the object storage. An implementation
-- answers, or fails with a StorageException.
pub mod S3
use Prim.Native.String.{String}
use docuai.Base.{ℕ, Bool, Option, List, Text, Result}
use docuai.Schema.{StorageKey}
use docuai.Errors.{AppException, ErrorCode}

pub record UploadUrlRequest : Type 0 where
  pub key : StorageKey
  pub content_type : Text
  pub content_length : ℕ
  pub expires_in_seconds : ℕ

pub record DownloadUrlRequest : Type 0 where
  pub key : StorageKey
  pub expires_in_seconds : ℕ
  pub response_content_type : Option Text
  pub response_content_disposition : Option Text

pub data UrlMethod : Type 0 where
  put get : UrlMethod

-- The headers of an upload repeat its request, and are left out.
pub record PresignedUrl : Type 0 where
  pub url : String
  pub method : UrlMethod
  pub expires_at : ℕ
  pub expires_in_seconds : ℕ

pub record StoredObjectMetadata : Type 0 where
  pub size : ℕ
  pub content_type : Option Text
  pub etag : Option Text
  pub last_modified : Option ℕ

-- The body as it arrives: the lengths of the chunks, and whether the stream breaks after them.
pub record ObjectBody : Type 0 where
  pub chunks : List ℕ
  pub breaks : Bool

pub record StoredObjectStream : Type 0 where
  pub body : ObjectBody
  pub size : Option ℕ
  pub content_type : Option Text

pub record StorageProvider : Type 0 where
  pub create_upload_url : UploadUrlRequest → Result AppException PresignedUrl
  pub create_download_url : DownloadUrlRequest → Result AppException PresignedUrl
  pub head_object : StorageKey → Result AppException (Option StoredObjectMetadata)

abbrev pub storage_exception : AppException
storage_exception = record { status = 503; code = ErrorCode.storage_error }
