-- ===== src/Ocr/Jobs.antt =====
-- backend/src/ocr/ocr-job.service.ts: the rows of OCR jobs and of their pages. Each method is one
-- statement or one transaction of the database, on the world that it finds; `now` is the time, and
-- `h < now - stale` is written `h + stale < now`, since times are natural numbers.
pub mod Finalize
pub mod Calls
pub mod Claims
pub mod Pages
pub mod Outcome
pub mod Releases
mod Tests
use docuai.Base.{
  take, ℕ, zero, suc, ◌+◌, ◌-◌, Bool, true, false, not, ◌&&◌, ◌||◌, Option, none, some, List, [],
  ◌∷◌, ◌++◌, ltb, leb, ◌==◌, if◌then◌else◌, is_some, get_or_else, length, min, max, is_empty,
}
use docuai.Table.{order_by, find_first, count_where, find_many, update_many, insert_row}
use docuai.Schema.{
  Document, OcrJob, OcrJobStatus, OcrPage, OcrPageStatus, OcrExtractionMethod, OcrErrorCode,
}
use docuai.World.{World}

abbrev pub is_processing : OcrJobStatus → Bool
is_processing OcrJobStatus.processing = true
is_processing _ = false

abbrev pub is_queued : OcrJobStatus → Bool
is_queued OcrJobStatus.queued = true
is_queued _ = false

-- ACTIVE_OCR_STATUSES
abbrev pub is_active : OcrJobStatus → Bool
is_active OcrJobStatus.queued = true
is_active OcrJobStatus.processing = true
is_active _ = false

-- TERMINAL_OCR_STATUSES
abbrev pub is_terminal : OcrJobStatus → Bool
is_terminal OcrJobStatus.completed = true
is_terminal OcrJobStatus.partial = true
is_terminal OcrJobStatus.failed = true
is_terminal OcrJobStatus.cancelled = true
is_terminal _ = false

-- `"heartbeat_at" IS NULL OR "heartbeat_at" < staleBefore`
abbrev pub is_stale : ℕ → ℕ → OcrJob → Bool
is_stale stale now j = elim j.heartbeat_at [ none ↦ true | some h ↦ ltb (h + stale) now ]

abbrev pub find_job : ℕ → World → Option OcrJob
find_job id w = find_first (λ j. j.id == id) w.jobs

-- `updateMany` on the jobs: the number of rows that it changed, and the world after it.
abbrev pub update_jobs : (OcrJob → Bool) → (OcrJob → OcrJob) → World → ℕ × World
update_jobs p f w = (count_where p w.jobs, record w { jobs = update_many p f w.jobs })

-- `return updated.count === 1;`
abbrev pub one_row : ℕ × World → Bool × World
one_row (count, w) = (count == 1, w)

abbrev pub claimable : ℕ → ℕ → ℕ → OcrJob → Bool
claimable id stale now j =
    j.id == id && (is_queued j.status || (is_processing j.status && is_stale stale now j))

abbrev pub claimed : ℕ → OcrJob → OcrJob
claimed now j = record j {
  status = OcrJobStatus.processing;
  started_at = some (get_or_else j.started_at now);
  heartbeat_at = some now;
  attempt_count = j.attempt_count + 1;
  error_code = none;
}

pub claim : (id stale now : ℕ) → World → Bool × World
claim id stale now w = one_row (update_jobs (claimable id stale now) (claimed now) w)

-- `where: { id: jobId, status: PROCESSING }`
abbrev pub held : ℕ → OcrJob → Bool
held id j = j.id == id && is_processing j.status

-- `where: { id: jobId, status: { in: ACTIVE_OCR_STATUSES } }`
abbrev pub open_job : ℕ → OcrJob → Bool
open_job id j = j.id == id && is_active j.status

pub heartbeat : (id now : ℕ) → World → World
heartbeat id now w = (update_jobs (held id) (λ j. record j { heartbeat_at = some now }) w).1

pub set_total_pages : (id document_id total now : ℕ) → World → World
set_total_pages id document_id total now w =
    let w' =
      (update_jobs (held id) (λ j. record j { total_pages = some total; heartbeat_at = some now })
        w).1 in
    record w' {
      documents =
          update_many (λ (d : Document). d.id == document_id && not (is_some d.deleted_at))
            (λ d. record d { page_count = some total }) w'.documents;
    }

abbrev pub of_job : ℕ → OcrPage → Bool
of_job id p = p.ocr_job_id == id

abbrev pub pages_of : ℕ → World → List OcrPage
pages_of id w = find_many (of_job id) w.pages

-- `_max: { pageNumber }` and `_sum: { charCount }`, with their `?? 0`.
abbrev pub max_page : List OcrPage → ℕ
max_page [] = 0
max_page (p ∷ ps) = max p.page_number (max_page ps)

abbrev pub sum_chars : List OcrPage → ℕ
sum_chars [] = 0
sum_chars (p ∷ ps) = p.char_count + sum_chars ps

pub persisted_progress : ℕ → World → ℕ × ℕ
persisted_progress id w = (max_page (pages_of id w), sum_chars (pages_of id w))

abbrev pub is_failed : OcrPage → Bool
is_failed p = elim p.status [ OcrPageStatus.failed ↦ true | _ ↦ false ]

-- The unique key `(ocrJobId, pageNumber)`.
abbrev pub same_page : OcrPage → OcrPage → Bool
same_page p q = q.ocr_job_id == p.ocr_job_id && q.page_number == p.page_number

-- `upsert`: every column but the key is the new page's in both branches.
pub upsert_page : OcrPage → List OcrPage → List OcrPage
upsert_page p pages = elim (find_first (same_page p) pages) [
  | none ↦ insert_row p pages
  | some _ ↦ update_many (same_page p) (λ q. p) pages
]

-- The counters of a job from its stored pages.
abbrev pub progressed : List OcrPage → (now : ℕ) → OcrJob → OcrJob
progressed stored now j = record j {
  processed_pages = min (get_or_else j.total_pages (length stored)) (length stored);
  failed_pages = count_where is_failed stored;
  heartbeat_at = some now;
}

-- The page that the worker hands over carries its job's id.
pub persist_page : OcrPage → (now : ℕ) → World → World
persist_page p now w =
    let w' = record w { pages = upsert_page p w.pages } in
    (update_jobs (held p.ocr_job_id) (progressed (pages_of p.ocr_job_id w') now) w').1

abbrev pub ended : OcrJobStatus → OcrErrorCode → (now : ℕ) → OcrJob → OcrJob
ended status code now j = record j {
  status = status;
  error_code = some code;
  completed_at = some now;
  heartbeat_at = some now;
}

unfoldable pub fail : (id : ℕ) → OcrErrorCode → (now : ℕ) → World → Bool × World
fail id code now w = one_row (update_jobs (open_job id) (ended OcrJobStatus.failed code now) w)

pub requeue : (id : ℕ) → OcrErrorCode → (now : ℕ) → World → Bool × World
requeue id code now w = one_row (
    update_jobs (held id)
      (λ j. record j {
        status = OcrJobStatus.queued;
        error_code = some code;
        heartbeat_at = some now;
      })
      w)

pub cancel : (id : ℕ) → OcrErrorCode → (now : ℕ) → World → Bool × World
cancel id code now w = one_row (update_jobs (open_job id) (ended OcrJobStatus.cancelled code now) w)

unfoldable pub recover : (id stale now : ℕ) → World → Bool × World
recover id stale now w = one_row (
    update_jobs (λ j. held id j && is_stale stale now j)
      (λ j. record j { status = OcrJobStatus.queued; heartbeat_at = some now }) w)

-- `orderBy: { createdAt: 'asc' }, take: 500`
abbrev oldest_500 : List OcrJob → List OcrJob
oldest_500 js = take 500 (order_by (λ (j : OcrJob). j.created_at) js)

unfoldable pub find_queued : World → List OcrJob
find_queued w = oldest_500 (find_many (λ j. is_queued j.status) w.jobs)

unfoldable pub find_stale_processing : (stale now : ℕ) → World → List OcrJob
find_stale_processing stale now w =
    oldest_500 (find_many (λ j. is_processing j.status && is_stale stale now j) w.jobs)
