-- ===== src/Ocr/Requests.antt =====
-- backend/src/ocr/ocr.service.ts, with the queries of ocr-job.service.ts that it makes and the errors
-- of ocr.errors.ts: the requests for OCR. `resolve` is OcrLanguagesService.resolve, `others` what other
-- requests do before the lock of the document is taken. The queue holds no state of its own here: an
-- entry that is lost is added again from the table of jobs.
pub mod Policy
pub mod Retry
pub mod Results
mod Tests
use docuai.Base.{
  ℕ, zero, suc, ◌+◌, ◌-◌, ◌*◌, Bool, true, false, not, ◌&&◌, ◌||◌, Option, none, some, List, [],
  ◌∷◌, Text, same_text, ltb, leb, ◌==◌, if◌then◌else◌, is_some, is_empty, get_or_else, Result, ok,
  err, take, drop, includes_text,
}
use docuai.Table.{find_first, count_where, find_many, insert_row, order_by}
use docuai.Schema.{Document, DocumentStatus, OcrJob, OcrJobStatus, OcrPage, OcrErrorCode}
use docuai.Errors.{AppException, ErrorCode}
use docuai.World.{
  World, Action, ◌>>=◌, ◌>>◌, pure, throw, gets, or_throw, transaction, modify, throw_if,
  record_event, SecurityEventType,
}
use docuai.Documents.{get_owned}
use docuai.Documents.FileName.{pdf_type, jpeg_type, png_type, webp_type}
use docuai.Documents.FileChecks.{is_ready}
use docuai.Ocr.Jobs.{is_active, is_queued, is_processing}

abbrev pub ocr_error : (status : ℕ) → OcrErrorCode → AppException
ocr_error status code = record { status = status; code = ErrorCode.ocr code }

pub record OcrConfig : Type 0 where
  pub enabled : Bool
  pub max_attempts : ℕ
  pub max_file_size_bytes : ℕ
  pub max_pdf_pages : ℕ
  pub max_active_jobs_per_user : ℕ
  pub max_jobs_per_document : ℕ

-- PERMANENT_OCR_ERROR_CODES
abbrev pub is_permanent : OcrErrorCode → Bool
is_permanent OcrErrorCode.ocr_unsupported_file_type = true
is_permanent OcrErrorCode.ocr_file_too_large = true
is_permanent OcrErrorCode.ocr_page_limit_exceeded = true
is_permanent OcrErrorCode.ocr_page_too_large = true
is_permanent OcrErrorCode.ocr_invalid_file = true
is_permanent OcrErrorCode.ocr_document_unavailable = true
is_permanent OcrErrorCode.ocr_unsupported_language = true
is_permanent _ = false

-- RETRYABLE_STATUSES
abbrev pub is_retryable : OcrJobStatus → Bool
is_retryable OcrJobStatus.failed = true
is_retryable OcrJobStatus.partial = true
is_retryable _ = false

abbrev pub has_results : OcrJobStatus → Bool
has_results OcrJobStatus.completed = true
has_results OcrJobStatus.partial = true
has_results _ = false

pub data OcrRequestOutcome : Type 0 where
  created active existing : OcrRequestOutcome

pub record OcrRequestResult : Type 0 where
  pub job : OcrJob
  pub outcome : OcrRequestOutcome

-- `orderBy: [{ createdAt: 'desc' }, { id: 'desc' }]`
abbrev pub newer : OcrJob → OcrJob → Bool
newer j k = ltb k.created_at j.created_at || (j.created_at == k.created_at && ltb k.id j.id)

-- `findFirst` in that order
pub latest : (OcrJob → Bool) → List OcrJob → Option OcrJob
latest p [] = none
latest p (j ∷ js) =
    let rest = latest p js in
    if p j
    then elim rest [ none ↦ some j | some k ↦ if newer k j then some k else some j ]
    else rest

abbrev pub active_of : ℕ → OcrJob → Bool
active_of d j = j.document_id == d && is_active j.status

pub latest_for_document : (d u : ℕ) → World → Option OcrJob
latest_for_document d u w = latest (λ j. j.document_id == d && j.user_id == u) w.jobs

-- The order of two active jobs of one time is left to the database; there is at most one.
pub active_for_document : (d : ℕ) → World → Option OcrJob
active_for_document d w = latest (active_of d) w.jobs

pub latest_for_language : (d : ℕ) → Text → World → Option OcrJob
latest_for_language d language w =
    latest (λ j. j.document_id == d && same_text j.language language) w.jobs

abbrev pub count_active_for_user : ℕ → World → ℕ
count_active_for_user u w = count_where (λ j. j.user_id == u && is_active j.status) w.jobs

abbrev pub count_for_document : ℕ → World → ℕ
count_for_document d w = count_where (λ j. j.document_id == d) w.jobs

-- SUPPORTED_MIME_TYPES
abbrev pub supported_mime_types : List Text
supported_mime_types = pdf_type ∷ jpeg_type ∷ png_type ∷ webp_type ∷ []

-- `value !== null && value > limit`
abbrev exceeds : Option ℕ → ℕ → Bool
exceeds none limit = false
exceeds (some n) limit = ltb limit n

abbrev is_given : Option Text → Bool
is_given none = false
is_given (some t) = not (is_empty t)

module _ (config : OcrConfig) where
  -- The error of `assertProcessable`, if any.
  pub unprocessable : Document → Option AppException
  unprocessable d =
      if not (is_ready d.status) || not (is_some d.storage_key) || not (is_given d.mime_type)
      then some (ocr_error 409 OcrErrorCode.ocr_document_not_ready)
      else if not (includes_text supported_mime_types (get_or_else d.mime_type []))
      then some (ocr_error 415 OcrErrorCode.ocr_unsupported_file_type)
      else if exceeds d.file_size config.max_file_size_bytes
      then some (ocr_error 413 OcrErrorCode.ocr_file_too_large)
      else if exceeds d.page_count config.max_pdf_pages
      then some (ocr_error 413 OcrErrorCode.ocr_page_limit_exceeded)
      else none

  assert_processable : Document → Action AppException (Unit {0})
  assert_processable d = elim (unprocessable d) [ none ↦ pure tt | some e ↦ throw e ]

  pub over_quota : (u d : ℕ) → World → Bool
  over_quota u d w =
      leb config.max_active_jobs_per_user (count_active_for_user u w)
      || leb config.max_jobs_per_document (count_for_document d w)

  abbrev pub new_job : (u d : ℕ) → Text → (id now : ℕ) → OcrJob
  new_job u d language id now = record {
    id = id;
    document_id = d;
    user_id = u;
    status = OcrJobStatus.queued;
    language = language;
    extraction_method = none;
    total_pages = none;
    processed_pages = 0;
    failed_pages = 0;
    error_code = none;
    attempt_count = 0;
    max_attempts = config.max_attempts;
    heartbeat_at = none;
    started_at = none;
    completed_at = none;
    created_at = now;
  }

  -- `assertQuota` and `createJob`
  create_job : (u d : ℕ) → Text → (id now : ℕ) → Action AppException OcrJob
  create_job u d language id now = do
    over ← gets (over_quota u d)
    throw_if over (ocr_error 429 OcrErrorCode.ocr_too_many_jobs)
    modify (λ w. record w { jobs = insert_row (new_job u d language id now) w.jobs })
    pure (new_job u d language id now)

  create_fresh : (u d : ℕ) → Text → (id now : ℕ) → Action AppException OcrRequestResult
  create_fresh u d language id now = do
    job ← create_job u d language id now
    pure (record { job = job; outcome = OcrRequestOutcome.created })

  -- A job with results for the language, unless the request forces a new one.
  pub reusable : (d : ℕ) → Text → (force : Bool) → World → Option OcrJob
  reusable d language force w = if force then none else elim (latest_for_language d language w) [
    | none ↦ none
    | some j ↦ if has_results j.status then some j else none
  ]

  -- The policy on duplicate jobs, under the lock of the document.
  decide : (u d : ℕ) → Text → (force : Bool) (id now : ℕ) → Action AppException OcrRequestResult
  decide u d language force id now w = elim (active_for_document d w) [
    | some j ↦
        if same_text j.language language
        then (ok (record { job = j; outcome = OcrRequestOutcome.active }), w)
        else (err (ocr_error 409 OcrErrorCode.ocr_already_processing), w)
    | none ↦ elim (reusable d language force w) [
      | some j ↦ (ok (record { job = j; outcome = OcrRequestOutcome.existing }), w)
      | none ↦ create_fresh u d language id now w
    ]
  ]

  record_created : ℕ → OcrRequestResult → Action AppException OcrRequestResult
  record_created u result w = elim result.outcome [
    | OcrRequestOutcome.created ↦
        (record_event SecurityEventType.ocr_job_requested u >> pure result) w
    | _ ↦ (ok result, w)
  ]

  -- What `request` does under the lock of the document, and after it.
  request_locked :
      (u d : ℕ) (language : Text) (force : Bool) (id now : ℕ) (others : World → World)
      → Action AppException OcrRequestResult
  request_locked u d language force id now others = do
    modify others
    result ← transaction (decide u d language force id now)
    record_created u result

  -- What `request` does once the language is resolved.
  request_resolved :
      (u d : ℕ) (language : Text) (force : Bool) (id now : ℕ) (others : World → World)
      → Document
      → Action AppException OcrRequestResult
  request_resolved u d language force id now others document = do
    assert_processable document
    request_locked u d language force id now others

  -- The checks on the latest job of a document, and its language.
  retry_decide :
      (resolve : Option Text → Result AppException Text) (u d id now : ℕ)
      → Action AppException OcrJob
  retry_decide resolve u d id now w = elim (latest_for_document d u w) [
    | none ↦ (err (ocr_error 404 OcrErrorCode.ocr_not_found), w)
    | some j ↦
        if not (is_retryable j.status)
        then (err (ocr_error 409 OcrErrorCode.ocr_retry_not_allowed), w)
        else if elim j.error_code [ none ↦ false | some c ↦ is_permanent c ]
        then (err (ocr_error 409 OcrErrorCode.ocr_retry_not_allowed), w)
        else elim (resolve (some j.language)) [
          | err e ↦ (err e, w)
          | ok _ ↦ create_job u d j.language id now w
        ]
  ]

  module _ (resolve : Option Text → Result AppException Text) where
    pub request :
        (u d : ℕ) (language : Option Text) (force : Bool) (id now : ℕ) (others : World → World)
        → Action AppException OcrRequestResult
    request u d language force id now others = do
      throw_if (not config.enabled) (ocr_error 503 OcrErrorCode.ocr_unavailable)
      document ← get_owned u d
      resolved ← (λ w. (resolve language, w))
      request_resolved u d resolved force id now others document

    pub retry : (u d id now : ℕ) (others : World → World) → Action AppException OcrJob
    retry u d id now others = do
      throw_if (not config.enabled) (ocr_error 503 OcrErrorCode.ocr_unavailable)
      document ← get_owned u d
      assert_processable document
      modify others
      job ← transaction (retry_decide resolve u d id now)
      record_event SecurityEventType.ocr_retry_requested u
      pure job
