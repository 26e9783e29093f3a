-- ===== src/Ocr/Jobs/Pages.antt =====
-- The stored pages of a job: OcrJobService.persistPage (backend/src/ocr/ocr-job.service.ts).
use docuai.Base.{ℕ, ◌&&◌, Option, List, ◌==◌}
use docuai.Table.{find_first}
use docuai.Schema.{OcrPage}
use docuai.World.{World}

-- A page is found by its unique key.
abbrev pub find_page : (job number : ℕ) → List OcrPage → Option OcrPage
find_page job number = find_first (λ q. q.ocr_job_id == job && q.page_number == number)
