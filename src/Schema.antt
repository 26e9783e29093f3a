-- ===== src/Schema.antt =====
-- The rows of backend/prisma/schema.prisma. Ids are only compared, so they are numbers, as are
-- times (in milliseconds). The columns `updatedAt`, which the ORM maintains and no service reads,
-- are left out. MIME types and file names are lists of UTF-16 code units.
use docuai.Base.{Bool, List, ℕ, Option}
use Prim.Native.String.{String}

pub record Folder : Type 0 where
  pub id : ℕ
  pub user_id : ℕ
  pub name : String
  pub parent_id : Option ℕ
  pub created_at : ℕ

pub data DocumentStatus : Type 0 where
  draft uploading ready processing failed deleted : DocumentStatus

-- The object key `users/{userId}/documents/{documentId}/{random}`.
pub record StorageKey : Type 0 where
  pub owner : ℕ
  pub document : ℕ
  pub random : ℕ

pub record Document : Type 0 where
  pub id : ℕ
  pub user_id : ℕ
  pub folder_id : Option ℕ
  pub title : String
  pub description : Option String
  pub status : DocumentStatus
  pub mime_type : Option (List ℕ)
  pub file_size : Option ℕ
  pub page_count : Option ℕ
  pub storage_key : Option StorageKey
  pub original_name : Option (List ℕ)
  pub created_at : ℕ
  pub deleted_at : Option ℕ

pub data UserStatus : Type 0 where
  active suspended removed : UserStatus

-- The address, the hash of the password and the columns that the services read.
pub record User : Type 0 where
  pub id : ℕ
  pub email : List ℕ
  pub password_hash : ℕ
  pub status : UserStatus

pub record RefreshToken : Type 0 where
  pub id : ℕ
  pub user_id : ℕ
  pub token_hash : ℕ
  pub expires_at : ℕ
  pub revoked_at : Option ℕ

pub data OcrJobStatus : Type 0 where
  queued processing completed partial failed cancelled : OcrJobStatus

pub data OcrExtractionMethod : Type 0 where
  native_text ocr mixed : OcrExtractionMethod

pub data OcrPageStatus : Type 0 where
  completed empty failed : OcrPageStatus

-- ocr/ocr.errors.ts: the codes that a job or a page can carry.
pub data OcrErrorCode : Type 0 where
  ocr_not_found ocr_not_ready ocr_already_processing ocr_unsupported_language : OcrErrorCode
  ocr_unsupported_file_type ocr_file_too_large ocr_page_limit_exceeded : OcrErrorCode
  ocr_page_too_large ocr_invalid_file ocr_processing_timeout ocr_processing_failed : OcrErrorCode
  ocr_storage_error ocr_text_limit_exceeded ocr_worker_interrupted : OcrErrorCode
  ocr_document_unavailable ocr_document_not_ready ocr_retry_not_allowed : OcrErrorCode
  ocr_too_many_jobs ocr_unavailable : OcrErrorCode

-- The text of the error is derived from its code and left out.
pub record OcrJob : Type 0 where
  pub id : ℕ
  pub document_id : ℕ
  pub user_id : ℕ
  pub status : OcrJobStatus
  pub language : List ℕ
  pub extraction_method : Option OcrExtractionMethod
  pub total_pages : Option ℕ
  pub processed_pages : ℕ
  pub failed_pages : ℕ
  pub error_code : Option OcrErrorCode
  pub attempt_count : ℕ
  pub max_attempts : ℕ
  pub heartbeat_at : Option ℕ
  pub started_at : Option ℕ
  pub completed_at : Option ℕ
  pub created_at : ℕ

-- A text is the list of its code points; a confidence is in hundredths of a percent.
pub record OcrPage : Type 0 where
  pub ocr_job_id : ℕ
  pub page_number : ℕ
  pub status : OcrPageStatus
  pub method : Option OcrExtractionMethod
  pub text : Option (List ℕ)
  pub confidence : Option ℕ
  pub char_count : ℕ
  pub truncated : Bool
  pub error_code : Option OcrErrorCode
