-- ===== src/Ocr/Worker.antt =====
-- backend/src/ocr/ocr-worker.service.ts: the processing of one job. What other workers, the timer of
-- the heartbeat and requests do is `others`, which runs before every call that the worker makes to the
-- database. One `now` stands for the clock during a run. `tools` answers for the parts that read files:
-- the storage and the subprocesses of OcrExtractionService.
pub mod Settled
pub mod Download
pub mod Reconcile
mod Tests
use Prim.Native.String.{String}
use docuai.Base.{
  ℕ, zero, suc, ◌+◌, ◌-◌, Bool, true, false, not, ◌&&◌, ◌||◌, Option, none, some, List, [], ◌∷◌,
  Text, ltb, leb, ◌==◌, if◌then◌else◌, is_some, get_or_else, Result, ok, err,
}
use docuai.Table.{find_first}
use docuai.Schema.{Document, OcrJob, OcrPage, OcrErrorCode, StorageKey}
use docuai.World.{World}
use docuai.Storage.{StoredObjectStream}
use docuai.Ocr.Processing.{
  Failure, processing, storage_failure, unexpected, permanent, transient, to_processing_error,
}
use docuai.Ocr.Extraction.{
  ExtractedPage, Extracted, ExtractionConfig, ExtractionTools, InspectedFile,
}
use docuai.Ocr.Extraction.Run.{inspect, extract}
use docuai.Documents.{live}
use docuai.Documents.FileChecks.{is_ready}
use docuai.Ocr.Jobs.{
  find_job, claim, set_total_pages, persist_page, persisted_progress, fail, requeue, cancel,
  is_terminal,
}
use docuai.Ocr.Jobs.Finalize.{finalize}

pub record WorkerTools : Type 0 where
  pub get_object_stream : StorageKey → Result Failure (Option StoredObjectStream)
  pub extraction : ExtractionTools

pub record WorkerConfig : Type 0 where
  pub stale_job_ms : ℕ
  pub job_timeout_ms : ℕ
  pub max_file_size_bytes : ℕ
  pub extraction : ExtractionConfig

-- How `process` ends: it returns, or the queue is told to try again, or to give up.
pub data Handled : Type 0 where
  done elsewhere retry_later : Handled
  unrecoverable : OcrErrorCode → Handled

-- `value !== null && value > limit`
abbrev pub exceeds : Option ℕ → ℕ → Bool
exceeds none limit = false
exceeds (some n) limit = ltb limit n

abbrev pub file_too_large : Failure
file_too_large = permanent OcrErrorCode.ocr_file_too_large

-- The chunks on their way through the limiter into the file.
pub receive : (max_bytes received : ℕ) → List ℕ → (breaks : Bool) → Result Failure (Unit {0})
receive max_bytes received [] breaks =
    if breaks then err (transient OcrErrorCode.ocr_storage_error) else ok tt
receive max_bytes received (chunk ∷ chunks) breaks =
    let rest = receive max_bytes (received + chunk) chunks breaks in
    if ltb max_bytes (received + chunk) then err file_too_large else rest

receive_object : (max_bytes : ℕ) → StoredObjectStream → Result Failure (Unit {0})
receive_object max_bytes object =
    if exceeds object.size max_bytes
    then err file_too_large
    else receive max_bytes 0 object.body.chunks object.body.breaks

pub download :
    (max_bytes : ℕ) → Result Failure (Option StoredObjectStream) → Result Failure (Unit {0})
unfolding receive_object
download max_bytes (err storage_failure) = err (transient OcrErrorCode.ocr_storage_error)
download max_bytes (err (processing e)) = err (processing e)
download max_bytes (err unexpected) = err unexpected
download max_bytes (ok none) = err (permanent OcrErrorCode.ocr_storage_error)
download max_bytes (ok (some object)) = receive_object max_bytes object

-- The row of a page.
abbrev pub stored : (id : ℕ) → ExtractedPage → OcrPage
stored id p = record {
  ocr_job_id = id;
  page_number = p.page_number;
  status = p.status;
  method = p.method;
  text = p.text;
  confidence = p.confidence;
  char_count = p.char_count;
  truncated = p.truncated;
  error_code = p.error_code;
}

module _ (locale_lt : OcrErrorCode → OcrErrorCode → Bool) (config : WorkerConfig)
    (tools : WorkerTools) (others : World → World) (now : ℕ) where
  -- `for await (const page of pages) await this.jobs.persistPage(job.id, page);`
  persist_all : (id : ℕ) → List ExtractedPage → World → World
  persist_all id [] w = w
  persist_all id (p ∷ ps) w = persist_all id ps (persist_page (stored id p) now (others w))

  -- The end of `run`: the pages are stored; then the job is finalized, or the failure is thrown.
  finish_run : OcrJob → Extracted → World → Result Failure (Unit {0}) × World
  finish_run job extracted w =
      let w' = others (persist_all job.id extracted.pages w) in
      elim extracted.failure [
        | none ↦ (ok tt, (finalize locale_lt job.id now w').1)
        | some e ↦ (err e, w')
      ]

  -- `run` for a file that was inspected.
  start_extraction : OcrJob → Document → InspectedFile → World → Result Failure (Unit {0}) × World
  start_extraction job document inspected w =
      let w' = others (set_total_pages job.id document.id inspected.total_pages now (others w)) in
      let (last_page, chars) = persisted_progress job.id w' in
      finish_run job
        (extract config.extraction tools.extraction (record {
          inspected = inspected;
          language = job.language;
          deadline = now + config.job_timeout_ms;
          start_page = last_page + 1;
          char_budget = config.extraction.max_text_per_document - chars;
        }))
        w'

  -- `run` for a document that is READY and has an object.
  run_document : OcrJob → Document → StorageKey → World → Result Failure (Unit {0}) × World
  run_document job document key w =
      if exceeds document.file_size config.max_file_size_bytes
      then (err file_too_large, w)
      else elim (download config.max_file_size_bytes (tools.get_object_stream key)) [
        | err e ↦ (err e, w)
        | ok _ ↦ elim (inspect config.extraction tools.extraction document.mime_type) [
          | err e ↦ (err e, w)
          | ok inspected ↦ start_extraction job document inspected w
        ]
      ]

  -- The document with its key, if it is still there, READY and uploaded.
  available : OcrJob → World → Option (Document × StorageKey)
  available job w = elim (find_first (live job.user_id job.document_id) w.documents) [
    | none ↦ none
    | some d ↦
        if is_ready d.status
        then elim d.storage_key [ none ↦ none | some key ↦ some (d, key) ]
        else none
  ]

  -- `run` after the read of the document; a job without one is cancelled.
  run_available :
      OcrJob → Option (Document × StorageKey) → World → Result Failure (Unit {0}) × World
  run_available job none w =
      (ok tt, (cancel job.id OcrErrorCode.ocr_document_unavailable now (others w)).1)
  run_available job (some (document, key)) w = run_document job document key w

  pub run : OcrJob → World → Result Failure (Unit {0}) × World
  run job w = run_available job (available job (others w)) (others w)

  pub handle_failure : OcrJob → Failure → World → Handled × World
  handle_failure job failure w =
      let e = to_processing_error failure in
      if e.permanent || leb job.max_attempts job.attempt_count
      then (Handled.unrecoverable e.code, (fail job.id e.code now (others w)).1)
      else (Handled.retry_later, (requeue job.id e.code now (others w)).1)

  -- `try { run } catch { handleFailure }`
  run_claimed : OcrJob → World → Handled × World
  run_claimed job w =
      let (r, w') = run job w in
      elim r [ ok _ ↦ (Handled.done, w') | err e ↦ handle_failure job e w' ]

  -- `process` after a claim that was granted.
  process_claimed : OcrJob → World → Handled × World
  process_claimed job w =
      if ltb job.max_attempts job.attempt_count
      then (
        Handled.unrecoverable OcrErrorCode.ocr_worker_interrupted,
        (fail job.id OcrErrorCode.ocr_worker_interrupted now (others w)).1,
      )
      else run_claimed job w

  claim_job : (id : ℕ) → OcrJob → World → Handled × World
  claim_job id job w =
      let (granted, w') = claim id config.stale_job_ms now (others w) in
      if granted
      then process_claimed (get_or_else (find_job id (others w')) job) (others w')
      else (Handled.elsewhere, w')

  pub process : (id : ℕ) → World → Handled × World
  process id w = elim (find_job id (others w)) [
    | none ↦ (Handled.done, others w)
    | some job ↦
        if is_terminal job.status then (Handled.done, others w) else claim_job id job (others w)
  ]
