-- ===== src/Documents/Files.antt =====
-- backend/src/documents/document-files.service.ts: presigned uploads and downloads. `others` is what
-- other requests do between the reads of a method and its conditional write.
pub mod Verified
pub mod Backed
pub mod Completion
pub mod Declaration
pub mod History
mod Tests
use docuai.Base.{
  ℕ, zero, suc, ◌+◌, ◌-◌, ◌^◌, Bool, true, false, not, ◌&&◌, ◌||◌, Option, none, some, List, [],
  ◌∷◌, ◌++◌, Text, same_text, includes_text, drop_while, drop_end, ltb, leb, ◌==◌, if◌then◌else◌,
  is_some, get_or_else, is_empty, Result, ok, err,
}
use docuai.Table.{find_first, count_where, update_many}
use docuai.Schema.{Document, DocumentStatus, StorageKey}
use docuai.Errors.{AppException, ErrorCode}
use docuai.Storage.{
  StorageProvider, UploadUrlRequest, DownloadUrlRequest, PresignedUrl, StoredObjectMetadata,
}
use docuai.World.{
  World, Action, ◌>>=◌, ◌>>◌, pure, throw, gets, or_throw, modify, throw_if, record_event,
  SecurityEventType,
}
use docuai.Documents.{live, update_documents, get_owned}
use docuai.Documents.FileName.Disposition.{attachment_content_disposition}
use docuai.Documents.FileName.{
  normalize_mime_type, sanitize_file_name, extension_of, mime_type_for_extension,
}
use docuai.Documents.FileChecks.{
  file_too_large, unsupported_file_type, invalid_upload, upload_not_found, upload_not_ready,
  uri_error, validation_error, is_uploadable, is_ready, ask, remove_object, stored_type_of,
  uploadable, declared, superseded, uploading_key, rejected, verified, upload_problems, FilesConfig,
  CreateUploadUrlDto, UploadUrlResult, DownloadUrlResult,
}

module _ (config : FilesConfig) (nfc lower : Text → Text) where
  validate_content_type : Text → Action AppException Text
  validate_content_type raw = do
    let content_type : Text = normalize_mime_type lower raw
    throw_if (not (includes_text config.allowed_mime_types content_type)) unsupported_file_type
    pure content_type

  validate_file_size : ℕ → Action AppException ℕ
  validate_file_size size = do
    throw_if (ltb (2 ^ 53 - 1) size || ltb size 1) validation_error
    throw_if (ltb config.max_file_size_bytes size) file_too_large
    pure size

  validate_file_name : Text → Text → Action AppException Text
  validate_file_name raw content_type = do
    file_name ← or_throw (sanitize_file_name nfc lower raw) (pure validation_error)
    throw_if
        (elim (mime_type_for_extension (extension_of nfc lower file_name)) [
          | none ↦ false
          | some t ↦ not (same_text t content_type)
        ])
        unsupported_file_type
    pure file_name

  module _ (storage : StorageProvider) where
    -- The end of `createUploadUrl`: the signed URL and the document as it now is.
    issue_upload_url :
        (u id : ℕ)
        → StorageKey
        → (content_type : Text) (size : ℕ) → Action AppException UploadUrlResult
    issue_upload_url u id key content_type size = do
      presigned ← ask (
          storage.create_upload_url (record {
            key = key;
            content_type = content_type;
            content_length = size;
            expires_in_seconds = config.upload_url_ttl_seconds;
          }))
      document ← get_owned u id
      record_event SecurityEventType.upload_url_created u
      pure (record { presigned = presigned; document = document })

    -- The conditional write of `createUploadUrl`, and what follows it.
    declare_upload :
        (u id : ℕ)
        → Document
        → StorageKey
        → (content_type : Text) (size : ℕ) (name : Text) → Action AppException UploadUrlResult
    declare_upload u id current key content_type size name = do
      count ← gets (λ w. count_where (uploadable u current.id) w.documents)
      modify (update_documents (uploadable u current.id) (declared key content_type size name))
      throw_if (not (count == 1)) invalid_upload
      modify (superseded current.storage_key key)
      issue_upload_url u id key content_type size

    -- What `createUploadUrl` does for a declaration that is valid. `random` is the fresh part of the
    -- new key.
    request_upload :
        (u id : ℕ) (content_type : Text) (size : ℕ) (name : Text) (random : ℕ)
        (others : World → World)
        → Action AppException UploadUrlResult
    request_upload u id content_type size name random others = do
      current ← get_owned u id
      throw_if (not (is_uploadable current.status)) invalid_upload
      modify others
      declare_upload u id current (record { owner = u; document = current.id; random = random })
          content_type size name

    pub create_upload_url :
        (u id : ℕ)
        → CreateUploadUrlDto
        → (random : ℕ) (others : World → World) → Action AppException UploadUrlResult
    create_upload_url u id dto random others = do
      content_type ← validate_content_type dto.content_type
      size ← validate_file_size dto.file_size
      name ← validate_file_name dto.file_name content_type
      request_upload u id content_type size name random others

    reject_upload : (u : ℕ) → Document → StorageKey → Action AppException (Unit {0})
    reject_upload u current key = do
      modify (update_documents (uploading_key u current.id key) rejected)
      modify (remove_object key)
      record_event SecurityEventType.upload_rejected u

    -- What `completeUpload` answers after its conditional write.
    answer_accepted : (u count : ℕ) → Document → Action AppException Document
    answer_accepted u count document = do
      throw_if (not (count == 1) && not (is_ready document.status)) invalid_upload
      (if count == 1 then record_event SecurityEventType.upload_completed u else pure tt)
      pure document

    -- The write of `completeUpload` once the object has passed.
    accept_upload :
        (u id : ℕ) → Document → StorageKey → StoredObjectMetadata → Action AppException Document
    accept_upload u id current key head = do
      let passed : (Document → Bool) =
          λ d. uploading_key u current.id key d && not (is_some d.deleted_at)
      count ← gets (λ w. count_where passed w.documents)
      modify (update_documents passed (verified head.size (stored_type_of lower head) current))
      document ← get_owned u id
      answer_accepted u count document

    refuse_upload : (u : ℕ) → Document → StorageKey → Action AppException Document
    refuse_upload u current key = do reject_upload u current key; throw invalid_upload

    -- `if (problems.length > 0)`: the object passed when there is no problem.
    settle_upload :
        (u id : ℕ)
        → Document
        → StorageKey
        → StoredObjectMetadata
        → (passed : Bool) → Action AppException Document
    settle_upload u id current key head true = accept_upload u id current key head
    settle_upload u id current key head false = refuse_upload u current key

    -- What `completeUpload` does with the metadata that the storage has of the object.
    check_object :
        (u id : ℕ)
        → Document
        → StorageKey
        → (etag : Option Text) (others : World → World) → Option StoredObjectMetadata
        → Action AppException Document
    check_object u id current key etag others found = do
      head ← or_throw found (pure upload_not_found)
      modify others
      settle_upload u id current key head
          (is_empty (upload_problems config lower current head etag))

    -- What follows the read of a document with an upload in progress under `key`.
    check_upload :
        (u id : ℕ)
        → Document
        → StorageKey
        → (etag : Option Text) (others : World → World) → Action AppException Document
    check_upload u id current key etag others = do
      found ← ask (storage.head_object key)
      check_object u id current key etag others found

    -- The tests of the status and of the key.
    answer_upload :
        (u id : ℕ)
        → Document
        → (etag : Option Text) (others : World → World) → DocumentStatus
        → Option StorageKey
        → Action AppException Document
    answer_upload u id current etag others DocumentStatus.ready k = pure current
    answer_upload u id current etag others DocumentStatus.uploading (some key) =
        check_upload u id current key etag others
    answer_upload u id current etag others _ _ = throw invalid_upload

    pub complete_upload :
        (u id : ℕ) (etag : Option Text) (others : World → World) → Action AppException Document
    complete_upload u id etag others = do
      current ← get_owned u id
      answer_upload u id current etag others current.status current.storage_key

    -- `id_text` is the text of an identifier.
    pub create_download_url :
        (id_text : ℕ → Text) (u id : ℕ) → Action AppException DownloadUrlResult
    create_download_url id_text u id = do
      document ← get_owned u id
      throw_if (not (is_ready document.status)) upload_not_ready
      key ← or_throw document.storage_key (pure upload_not_ready)
      mime_type ← or_throw document.mime_type (pure upload_not_ready)
      throw_if (is_empty mime_type) upload_not_ready
      let name : Text = get_or_else document.original_name (id_text document.id)
      disposition ← or_throw (attachment_content_disposition name) (pure uri_error)
      presigned ← ask (
          storage.create_download_url (record {
            key = key;
            expires_in_seconds = config.download_url_ttl_seconds;
            response_content_type = some mime_type;
            response_content_disposition = some disposition;
          }))
      record_event SecurityEventType.download_url_created u
      pure (record {
        presigned = presigned;
        file_name = name;
        content_type = mime_type;
        file_size = get_or_else document.file_size 0;
      })
