-- ===== src/Ocr/Requests/Results.antt =====
-- backend/src/ocr/ocr.service.ts: status and results, with the queries of ocr-job.service.ts that they
-- make.
pub mod Terminal
mod Tests
use docuai.Base.{
  ℕ, leb, Bool, true, false, ◌&&◌, ◌||◌, Option, none, some, List, if◌then◌else◌, ◌==◌,
}
use docuai.Table.{find_first, count_where, find_many}
use docuai.Table.Paging.{page_of, order_rows, total_pages}
use docuai.Schema.{OcrJob, OcrPage, OcrErrorCode}
use docuai.Errors.{AppException}
use docuai.World.{World, Action, ◌>>=◌, ◌>>◌, pure, gets, or_throw, throw_if}
use docuai.Documents.{get_owned}
use docuai.Ocr.Jobs.{is_queued, is_processing}
use docuai.Ocr.Requests.{ocr_error, latest_for_document}

pub record OcrResultsQuery : Type 0 where
  pub page : ℕ
  pub limit : ℕ
  pub page_number : Option ℕ
  pub job_id : Option ℕ

pub record OcrResults : Type 0 where
  pub job : OcrJob
  pub pages : List OcrPage
  pub page : ℕ
  pub limit : ℕ
  pub total : ℕ
  pub total_pages : ℕ

abbrev pub ocr_not_found : AppException
ocr_not_found = ocr_error 404 OcrErrorCode.ocr_not_found

abbrev pub ocr_not_ready : AppException
ocr_not_ready = ocr_error 409 OcrErrorCode.ocr_not_ready

-- `where: { id: jobId, documentId, userId }`
abbrev pub owned_job : (id d u : ℕ) → OcrJob → Bool
owned_job id d u j = j.id == id && j.document_id == d && j.user_id == u

pub find_owned : (id d u : ℕ) → World → Option OcrJob
find_owned id d u w = find_first (owned_job id d u) w.jobs

abbrev has_number : Option ℕ → OcrPage → Bool
has_number none p = true
has_number (some n) p = p.page_number == n

-- `where: { ocrJobId: jobId, pageNumber }`
abbrev pub page_of_job : (id : ℕ) → Option ℕ → OcrPage → Bool
page_of_job id number p = p.ocr_job_id == id && has_number number p

-- `orderBy: { pageNumber: 'asc' }`
abbrev pub by_number : OcrPage → OcrPage → Bool
by_number p q = leb p.page_number q.page_number

-- The rows that `pages` reads page by page.
abbrev pub job_pages : (id : ℕ) → Option ℕ → World → List OcrPage
job_pages id number w = order_rows by_number (find_many (page_of_job id number) w.pages)

pub status : (u d : ℕ) → Action AppException OcrJob
status u d = do
  document ← get_owned u d
  job ← gets (latest_for_document d u)
  or_throw job (pure ocr_not_found)

-- The job that a request for results is about.
pub requested_job : (u d : ℕ) → Option ℕ → World → Option OcrJob
unfolding find_owned
requested_job u d none w = latest_for_document d u w
requested_job u d (some id) w = find_owned id d u w

pub results : (u d : ℕ) → OcrResultsQuery → Action AppException OcrResults
unfolding requested_job
results u d query = do
  document ← get_owned u d
  found ← gets (requested_job u d query.job_id)
  job ← or_throw found (pure ocr_not_found)
  throw_if (is_queued job.status || is_processing job.status) ocr_not_ready
  rows ← gets (job_pages job.id query.page_number)
  total ← gets (λ w. count_where (page_of_job job.id query.page_number) w.pages)
  pure (record {
    job = job;
    pages = page_of query.page query.limit rows;
    page = query.page;
    limit = query.limit;
    total = total;
    total_pages = total_pages total query.limit;
  })
