-- ===== src/Ocr/Processing.antt =====
-- backend/src/ocr/ocr.errors.ts: the failures of a run of the worker.
use docuai.Base.{Bool, true, false}
use docuai.Schema.{OcrErrorCode}

-- OcrProcessingError; of the detail, which is for the log, only the text that the extraction reads is
-- kept: whether it starts with 'Command not found'.
pub record ProcessingError : Type 0 where
  pub code : OcrErrorCode
  pub permanent : Bool
  pub command_not_found : Bool

-- What the code of a run may throw: the error above, a StorageException, or another error.
pub data Failure : Type 0 where
  processing : ProcessingError → Failure
  storage_failure unexpected : Failure

abbrev pub permanent : OcrErrorCode → Failure
permanent code = processing (record { code = code; permanent = true; command_not_found = false })

abbrev pub transient : OcrErrorCode → Failure
transient code = processing (record { code = code; permanent = false; command_not_found = false })

-- toProcessingError of backend/src/ocr/ocr-worker.service.ts
pub to_processing_error : Failure → ProcessingError
to_processing_error (processing e) = e
to_processing_error storage_failure = record {
  code = OcrErrorCode.ocr_storage_error;
  permanent = false;
  command_not_found = false;
}
to_processing_error unexpected = record {
  code = OcrErrorCode.ocr_processing_failed;
  permanent = false;
  command_not_found = false;
}
