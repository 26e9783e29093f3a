-- ===== src/Errors.antt =====
-- The exceptions that reach a client: the HTTP status and the stable code of
-- backend/src/common/exceptions/app.exception.ts. Clients branch on the code, never on the message,
-- so the messages are left out.
pub mod Filter
use docuai.Base.{ℕ, Text}
use docuai.Schema.{OcrErrorCode}

pub data ErrorCode : Type 0 where
  folder_not_found invalid_folder folder_cycle_detected folder_depth_exceeded : ErrorCode
  document_not_found file_too_large unsupported_file_type invalid_upload : ErrorCode
  upload_not_found upload_not_ready validation_error storage_error : ErrorCode
  auth_invalid_credentials auth_unauthorized auth_account_suspended auth_account_deleted : ErrorCode
  auth_refresh_token_invalid auth_refresh_token_expired auth_refresh_token_reused : ErrorCode
  auth_email_already_exists internal_error : ErrorCode
  bad_request unauthorized forbidden not_found method_not_allowed conflict : ErrorCode
  payload_too_large unsupported_media_type rate_limited service_unavailable : ErrorCode
  ocr : OcrErrorCode → ErrorCode
  custom : (code : Text) → ErrorCode

pub record AppException : Type 0 where
  pub status : ℕ
  pub code : ErrorCode
