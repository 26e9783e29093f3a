-- ===== src/Documents/FileChecks.antt =====
-- backend/src/documents/document-files.service.ts: the requests and answers of uploads and downloads, the
-- changes of a document that they write, and the checks of an uploaded object; with the errors of
-- documents.errors.ts.
use docuai.Base.{
  strip_quotes, ℕ, Bool, true, false, not, ◌&&◌, Option, none, some, List, [], ◌∷◌, ◌++◌, Text,
  same_text, includes_text, ltb, ◌==◌, if◌then◌else◌, get_or_else, is_empty, Result,
}
use docuai.Schema.{Document, DocumentStatus, StorageKey}
use docuai.Errors.{AppException, ErrorCode}
use docuai.Storage.{PresignedUrl, StoredObjectMetadata}
use docuai.World.{World, Action}
use docuai.Documents.{live}
use docuai.Documents.FileName.{normalize_mime_type}

pub record FilesConfig : Type 0 where
  pub allowed_mime_types : List Text
  pub max_file_size_bytes : ℕ
  pub upload_url_ttl_seconds : ℕ
  pub download_url_ttl_seconds : ℕ

abbrev pub file_too_large : AppException
file_too_large = record { status = 413; code = ErrorCode.file_too_large }

abbrev pub unsupported_file_type : AppException
unsupported_file_type = record { status = 415; code = ErrorCode.unsupported_file_type }

abbrev pub invalid_upload : AppException
invalid_upload = record { status = 409; code = ErrorCode.invalid_upload }

abbrev pub upload_not_found : AppException
upload_not_found = record { status = 409; code = ErrorCode.upload_not_found }

abbrev pub upload_not_ready : AppException
upload_not_ready = record { status = 409; code = ErrorCode.upload_not_ready }

-- What an error of `encodeURIComponent` becomes, since nothing catches it.
abbrev pub uri_error : AppException
uri_error = record { status = 500; code = ErrorCode.internal_error }

abbrev pub validation_error : AppException
validation_error = record { status = 400; code = ErrorCode.validation_error }

-- UPLOADABLE_STATUSES
abbrev pub is_uploadable : DocumentStatus → Bool
is_uploadable DocumentStatus.draft = true
is_uploadable DocumentStatus.uploading = true
is_uploadable DocumentStatus.failed = true
is_uploadable _ = false

abbrev pub is_uploading : DocumentStatus → Bool
is_uploading DocumentStatus.uploading = true
is_uploading _ = false

abbrev pub is_ready : DocumentStatus → Bool
is_ready DocumentStatus.ready = true
is_ready _ = false

abbrev pub same_key : StorageKey → StorageKey → Bool
same_key a b = a.owner == b.owner && a.document == b.document && a.random == b.random

abbrev pub holds_key : Option StorageKey → StorageKey → Bool
holds_key none k = false
holds_key (some j) k = same_key j k

abbrev pub holds_text : Option Text → Text → Bool
holds_text none s = false
holds_text (some t) s = same_text t s

-- What a call of the storage gives, or its exception.
abbrev pub ask {ℓ} : {A : Type ℓ} → Result AppException A → Action AppException A
ask r w = (r, w)

-- `deleteObject(key).catch(…)`: the removal is asked for, whether or not it succeeds.
abbrev pub remove_object : StorageKey → World → World
remove_object key w = record w { removed_objects = w.removed_objects ++ key ∷ [] }

pub record CreateUploadUrlDto : Type 0 where
  pub file_name : Text
  pub content_type : Text
  pub file_size : ℕ

pub record UploadUrlResult : Type 0 where
  pub presigned : PresignedUrl
  pub document : Document

pub record DownloadUrlResult : Type 0 where
  pub presigned : PresignedUrl
  pub file_name : Text
  pub content_type : Text
  pub file_size : ℕ

pub data UploadProblem : Type 0 where
  size_mismatch too_large type_mismatch type_not_allowed etag_mismatch : UploadProblem

abbrev pub stripped : Option Text → Option Text
stripped none = none
stripped (some e) = some (strip_quotes e)

-- An absent or empty text is false.
abbrev pub differ_if_given : Option Text → Option Text → Bool
differ_if_given (some a) (some b) = not (is_empty a) && not (is_empty b) && not (same_text a b)
differ_if_given _ _ = false

-- `head.contentType ? normalizeMimeType(head.contentType) : null`
pub stored_type_of : (Text → Text) → StoredObjectMetadata → Option Text
stored_type_of lower head = elim head.content_type [
  | none ↦ none
  | some t ↦ if is_empty t then none else some (normalize_mime_type lower t)
]

abbrev pub declared_size : Document → ℕ
declared_size d = get_or_else d.file_size 0

-- `where: { id, userId, deletedAt: null, status: { in: UPLOADABLE_STATUSES } }`
abbrev pub uploadable : ℕ → ℕ → Document → Bool
uploadable u id d = live u id d && is_uploadable d.status

abbrev pub declared : StorageKey → Text → ℕ → Text → Document → Document
declared key content_type size name d = record d {
  status = DocumentStatus.uploading;
  storage_key = some key;
  mime_type = some content_type;
  file_size = some size;
  original_name = some name;
  page_count = none;
}

-- The object of an earlier attempt, if its key is not the new one.
unfoldable pub superseded : Option StorageKey → StorageKey → World → World
superseded none key w = w
superseded (some old) key w = if same_key old key then w else remove_object old w

-- `where: { id, userId, status: UPLOADING, storageKey }`
abbrev pub uploading_key : ℕ → ℕ → StorageKey → Document → Bool
uploading_key u id key d =
    d.id == id && d.user_id == u && is_uploading d.status && holds_key d.storage_key key

abbrev pub rejected : Document → Document
rejected d = record d { status = DocumentStatus.failed }

abbrev pub verified : ℕ → Option Text → Document → Document → Document
verified size stored current d = record d {
  status = DocumentStatus.ready;
  file_size = some size;
  mime_type = elim stored [ none ↦ current.mime_type | some t ↦ some t ];
}

module _ (config : FilesConfig) (lower : Text → Text) where
  -- The checks of `completeUpload` on the stored object.
  unfoldable pub upload_problems :
      Document → StoredObjectMetadata → Option Text → List UploadProblem
  upload_problems current head etag =
      let stored = stored_type_of lower head in
      (if not (head.size == declared_size current) then size_mismatch ∷ [] else [])
      ++ ((if ltb config.max_file_size_bytes head.size then too_large ∷ [] else [])
          ++ ((elim stored [
            | none ↦ []
            | some t ↦ if not (holds_text current.mime_type t) then type_mismatch ∷ [] else []
          ])
              ++ ((elim stored [
                | none ↦ []
                | some t ↦
                    if not (includes_text config.allowed_mime_types t)
                    then type_not_allowed ∷ []
                    else []
              ])
                  ++ (if differ_if_given (stripped etag) head.etag
                      then etag_mismatch ∷ []
                      else []))))
