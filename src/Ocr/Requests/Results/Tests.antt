-- ===== src/Ocr/Requests/Results/Tests.antt =====
-- The theorem on the results of a job (backend/src/ocr/ocr.service.ts) at a concrete input.
use docuai.Base.{ℕ, Text, none, some, [], ◌∷◌, false}
use docuai.Schema.{Document, DocumentStatus, OcrJob, OcrJobStatus, OcrPage, OcrPageStatus}
use docuai.Documents.FileName.{pdf_type}
use docuai.Ocr.Requests.Results.{OcrResultsQuery, OcrResults}
use docuai.World.{World}

abbrev eng : Text
eng = b'e' ∷ b'n' ∷ b'g' ∷ []

abbrev ready : Document
ready = record {
  id = 1;
  user_id = 7;
  folder_id = none;
  title = "Invoice";
  description = none;
  status = DocumentStatus.ready;
  mime_type = some pdf_type;
  file_size = some 200;
  page_count = none;
  storage_key = some (record { owner = 7; document = 1; random = 5 });
  original_name = none;
  created_at = 3;
  deleted_at = none;
}

abbrev job : OcrJob
job = record {
  id = 4;
  document_id = 1;
  user_id = 7;
  status = OcrJobStatus.completed;
  language = eng;
  extraction_method = none;
  total_pages = some 2;
  processed_pages = 2;
  failed_pages = 0;
  error_code = none;
  attempt_count = 1;
  max_attempts = 3;
  heartbeat_at = none;
  started_at = some 101;
  completed_at = some 109;
  created_at = 100;
}

abbrev stored_page : ℕ → OcrPage
stored_page n = record {
  ocr_job_id = 4;
  page_number = n;
  status = OcrPageStatus.completed;
  method = none;
  text = some eng;
  confidence = none;
  char_count = 3;
  truncated = false;
  error_code = none;
}

abbrev processed : World
processed = record {
  folders = [];
  documents = ready ∷ [];
  jobs = job ∷ [];
  pages = stored_page 2 ∷ stored_page 1 ∷ [];
  users = [];
  tokens = [];
  removed_objects = [];
  events = [];
}

abbrev first_result : OcrResultsQuery
first_result = record { page = 1; limit = 1; page_number = none; job_id = none }

abbrev answered : OcrResults
answered = record {
  job = job;
  pages = stored_page 1 ∷ [];
  page = 1;
  limit = 1;
  total = 2;
  total_pages = 2;
}
