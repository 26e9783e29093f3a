-- ===== src/Ocr/Worker/Tests.antt =====
-- The theorem on the worker (backend/src/ocr/ocr-worker.service.ts) at a concrete input.
use docuai.Ocr.Processing.{Failure}
use docuai.Base.{Option, refl, ◌≤◌, ℕ, Result, ◌≡◌, Bool, false, none, some, [], ◌∷◌, ok}
use docuai.Schema.{OcrJob, OcrJobStatus, OcrErrorCode}
use docuai.World.{World}
use docuai.Storage.{StoredObjectStream}
use docuai.Ocr.Worker.{receive, WorkerConfig, WorkerTools, download}
use docuai.Ocr.Extraction.Samples.{sample_config, sample_tools}
use docuai.Ocr.Worker.Download.{total, download_bounds}

abbrev no_order : OcrErrorCode → OcrErrorCode → Bool
no_order a b = false

abbrev config : WorkerConfig
config = record {
  stale_job_ms = 30;
  job_timeout_ms = 1000;
  max_file_size_bytes = 1000;
  extraction = sample_config;
}

abbrev object : StoredObjectStream
object = record {
  body = record { chunks = 400 ∷ 300 ∷ []; breaks = false };
  size = some 700;
  content_type = none;
}

abbrev tools : WorkerTools
tools = record { get_object_stream = λ key. ok (some object); extraction = sample_tools }

abbrev queued : OcrJob
queued = record {
  id = 1;
  document_id = 2;
  user_id = 7;
  status = OcrJobStatus.queued;
  language = b'e' ∷ b'n' ∷ b'g' ∷ [];
  extraction_method = none;
  total_pages = none;
  processed_pages = 0;
  failed_pages = 0;
  error_code = none;
  attempt_count = 0;
  max_attempts = 3;
  heartbeat_at = none;
  started_at = none;
  completed_at = none;
  created_at = 80;
}

abbrev before : World
before = record {
  folders = [];
  documents = [];
  jobs = queued ∷ [];
  pages = [];
  users = [];
  tokens = [];
  removed_objects = [];
  events = [];
}

abbrev found : Result Failure (Option StoredObjectStream)
found = ok (some object)

download_run : download 1000 found ≡ ok tt
unfolding download receive
download_run = refl

download_bounds_example :
    (o : StoredObjectStream) × (found ≡ ok (some o))
    × (total o.body.chunks ≤ 1000)
    × (o.body.breaks ≡ false)
    × ((size : ℕ) → o.size ≡ some size → size ≤ 1000)
download_bounds_example = download_bounds 1000 found download_run
