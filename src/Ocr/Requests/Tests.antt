-- ===== src/Ocr/Requests/Tests.antt =====
-- The theorems on requests for OCR (backend/src/ocr/ocr.service.ts) at concrete inputs.
use docuai.Base.{Text, Option, none, some, [], ◌∷◌, true, false, ok, Result, arith, get_or_else}
use docuai.Table.{count_where}
use docuai.Schema.{Document, DocumentStatus, OcrJob, OcrJobStatus}
use docuai.Errors.{AppException}
use docuai.Ocr.Requests.{OcrConfig, request, new_job}
use docuai.World.{World}
use docuai.Documents.FileName.{pdf_type}
use docuai.Ocr.Requests.Policy.{OneActive, request-OneActive}

abbrev config : OcrConfig
config = record {
  enabled = true;
  max_attempts = 3;
  max_file_size_bytes = 1000;
  max_pdf_pages = 50;
  max_active_jobs_per_user = 2;
  max_jobs_per_document = 5;
}

abbrev eng : Text
eng = b'e' ∷ b'n' ∷ b'g' ∷ []

abbrev resolve : Option Text → Result AppException Text
resolve language = ok (get_or_else language eng)

abbrev ready : Document
ready = record {
  id = 1;
  user_id = 7;
  folder_id = none;
  title = "Invoice";
  description = none;
  status = DocumentStatus.ready;
  mime_type = some pdf_type;
  file_size = some 200;
  page_count = none;
  storage_key = some (record { owner = 7; document = 1; random = 5 });
  original_name = none;
  created_at = 3;
  deleted_at = none;
}

abbrev before : World
before = record {
  folders = [];
  documents = ready ∷ [];
  jobs = [];
  pages = [];
  users = [];
  tokens = [];
  removed_objects = [];
  events = [];
}

before-OneActive : OneActive before
unfolding count_where
before-OneActive d = omega arith

request-OneActive_example :
    OneActive (request config resolve 7 1 none false 4 100 (λ w. w) before).1
request-OneActive_example =
    request-OneActive config resolve 7 1 none false 4 100 (λ w. w) before (λ v h. h)
      before-OneActive

abbrev failed_job : OcrJob
failed_job = record (new_job config 7 1 eng 4 100) { status = OcrJobStatus.failed }

-- The one job of the document has failed.
abbrev ended : World
ended = record before { jobs = failed_job ∷ [] }
