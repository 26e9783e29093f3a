-- ===== src/Ocr/Jobs/Tests.antt =====
-- The theorems on OCR jobs (backend/src/ocr/ocr-job.service.ts) at concrete inputs.
use docuai.Base.{
  ℕ, ◌≡◌, ◌≢◌, ◌⊎◌, ◌↔◌, refl, Bool, true, false, not, none, some, List, [], ◌∷◌, All, any, ◌==◌,
  if◌then◌else◌, arith,
}
use docuai.Table.{find_first, count_where}
use docuai.Schema.{OcrJob, OcrJobStatus, OcrPage, OcrPageStatus, OcrErrorCode}
use docuai.World.{World}
use docuai.Ocr.Jobs.{find_job, claim, claimed, is_failed}
use docuai.Ocr.Jobs.Finalize.{final_status}
use docuai.Ocr.Jobs.Calls.{JobCall, allowed, after, after_all, after-allowed, after_all_terminal}
use docuai.Ocr.Jobs.Claims.{is_free, claim-claim}
use docuai.Ocr.Jobs.Outcome.{final_status_iff}

abbrev no_order : OcrErrorCode → OcrErrorCode → Bool
no_order a b = false

abbrev job : OcrJobStatus → OcrJob
job status = record {
  id = 1;
  document_id = 2;
  user_id = 7;
  status = status;
  language = b'e' ∷ b'n' ∷ b'g' ∷ [];
  extraction_method = none;
  total_pages = some 2;
  processed_pages = 0;
  failed_pages = 0;
  error_code = none;
  attempt_count = 1;
  max_attempts = 3;
  heartbeat_at = some 100;
  started_at = some 90;
  completed_at = none;
  created_at = 80;
}

abbrev page : (number : ℕ) → OcrPageStatus → OcrPage
page number status = record {
  ocr_job_id = 1;
  page_number = number;
  status = status;
  method = none;
  text = none;
  confidence = none;
  char_count = 0;
  truncated = false;
  error_code = some OcrErrorCode.ocr_processing_failed;
}

abbrev holding : OcrJobStatus → World
holding status = record {
  folders = [];
  documents = [];
  jobs = job status ∷ [];
  pages = page 1 OcrPageStatus.failed ∷ [];
  users = [];
  tokens = [];
  removed_objects = [];
  events = [];
}

abbrev calls : List JobCall
calls =
    JobCall.persists (page 2 OcrPageStatus.failed) 200
    ∷ JobCall.finalizes 1 210
    ∷ JobCall.claims 1 30 500
    ∷ []

found : (s : OcrJobStatus) → find_job 1 (holding s) ≡ some (job s)
unfolding find_first
found s = refl

one_job : (s : OcrJobStatus) → count_where (λ j. j.id == 1) (holding s).jobs ≡ 1
unfolding count_where
one_job s = refl

after-allowed_example :
    (j : OcrJob) × (find_job 1
        (after no_order (JobCall.finalizes 1 210) (holding OcrJobStatus.processing))
      ≡ some j)
    × (allowed OcrJobStatus.processing j.status ≡ true)
after-allowed_example =
    after-allowed no_order (JobCall.finalizes 1 210) (holding OcrJobStatus.processing) 1
      (job OcrJobStatus.processing) (found OcrJobStatus.processing)

after_all_terminal_example :
    find_job 1 (after_all no_order calls (holding OcrJobStatus.cancelled))
    ≡ some (job OcrJobStatus.cancelled)
after_all_terminal_example =
    after_all_terminal no_order calls (holding OcrJobStatus.cancelled) 1
      (job OcrJobStatus.cancelled) (found OcrJobStatus.cancelled) refl

claim-claim_example :
    ((claim 1 30 200 (holding OcrJobStatus.processing)).0
      ≡ is_free 30 200 (job OcrJobStatus.processing))
    × (find_job 1 (claim 1 30 200 (holding OcrJobStatus.processing)).1
        ≡ some (
            if (claim 1 30 200 (holding OcrJobStatus.processing)).0
            then claimed 200 (job OcrJobStatus.processing)
            else job OcrJobStatus.processing))
    × (((claim 1 30 200 (holding OcrJobStatus.processing)).0 ≡ false)
        ⊎ ((claim 1 30 220 (claim 1 30 200 (holding OcrJobStatus.processing)).1).0 ≡ false))
claim-claim_example =
    claim-claim 1 30 200 220 (holding OcrJobStatus.processing) (job OcrJobStatus.processing)
      (one_job OcrJobStatus.processing) (found OcrJobStatus.processing) (omega arith)

abbrev two : List OcrPage
two = page 1 OcrPageStatus.failed ∷ page 2 OcrPageStatus.failed ∷ []

final_status_iff_example :
    ((final_status two ≡ OcrJobStatus.completed)
      ↔ ((two ≢ []) × All (λ p. is_failed p ≡ false) two))
    × ((final_status two ≡ OcrJobStatus.failed) ↔ All (λ p. is_failed p ≡ true) two)
    × ((final_status two ≡ OcrJobStatus.partial)
        ↔ ((any is_failed two ≡ true) × (any (λ p. not (is_failed p)) two ≡ true)))
final_status_iff_example = final_status_iff two
