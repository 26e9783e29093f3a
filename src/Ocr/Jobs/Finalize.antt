-- ===== src/Ocr/Jobs/Finalize.antt =====
-- OcrJobService.finalize and mostCommon of backend/src/ocr/ocr-job.service.ts: the end of a job,
-- from its stored pages.
use docuai.Base.{
  ℕ, ◌+◌, Bool, true, false, not, ◌&&◌, ◌||◌, Option, none, some, List, [], ◌∷◌, ltb, ◌==◌,
  if◌then◌else◌, get_or_else, length, is_empty,
}
use mathlib.Core.Bool.{decide}
use docuai.Table.{count_where}
use docuai.Schema.{OcrJob, OcrJobStatus, OcrPage, OcrExtractionMethod, OcrErrorCode}
use docuai.World.{World}
use docuai.Ocr.Jobs.{update_jobs, held, find_job, pages_of, is_failed}

abbrev same_method : OcrExtractionMethod → OcrExtractionMethod → Bool
same_method OcrExtractionMethod.native_text OcrExtractionMethod.native_text = true
same_method OcrExtractionMethod.ocr OcrExtractionMethod.ocr = true
same_method OcrExtractionMethod.mixed OcrExtractionMethod.mixed = true
same_method _ _ = false

-- `new Set(…)` of the methods that are not null, in the order of their first occurrence.
insert_method : OcrExtractionMethod → List OcrExtractionMethod → List OcrExtractionMethod
insert_method m [] = m ∷ []
insert_method m (n ∷ ms) = if same_method m n then n ∷ ms else n ∷ insert_method m ms

methods_from : List OcrExtractionMethod → List OcrPage → List OcrExtractionMethod
methods_from seen [] = seen
methods_from seen (p ∷ ps) =
    methods_from (elim p.method [ none ↦ seen | some m ↦ insert_method m seen ]) ps

pub extraction_method : List OcrPage → Option OcrExtractionMethod
unfolding methods_from insert_method
extraction_method pages = elim (methods_from [] pages) [
  | [] ↦ none
  | m ∷ rest ↦ if is_empty rest then some m else some OcrExtractionMethod.mixed
]

pub OcrErrorCode-discrete : Discrete OcrErrorCode
OcrErrorCode-discrete = hlevel

abbrev pub same_code : OcrErrorCode → OcrErrorCode → Bool
same_code a b = decide (OcrErrorCode-discrete a b)

-- `counts.set(value, (counts.get(value) ?? 0) + 1)`
pub count_code : OcrErrorCode → List (OcrErrorCode × ℕ) → List (OcrErrorCode × ℕ)
count_code c [] = (c, 1) ∷ []
count_code c ((d, n) ∷ counts) =
    if same_code c d then (d, n + 1) ∷ counts else (d, n) ∷ count_code c counts

pub tally : List (OcrErrorCode × ℕ) → List OcrErrorCode → List (OcrErrorCode × ℕ)
tally counts [] = counts
tally counts (c ∷ cs) = tally (count_code c counts) cs

pub failed_codes : List OcrPage → List OcrErrorCode
failed_codes [] = []
failed_codes (p ∷ ps) =
    if is_failed p
    then get_or_else p.error_code OcrErrorCode.ocr_processing_failed ∷ failed_codes ps
    else failed_codes ps

unfoldable pub final_status : List OcrPage → OcrJobStatus
final_status pages =
    let failed = count_where is_failed pages in
    if length pages == 0 || failed == length pages
    then OcrJobStatus.failed
    else (if ltb 0 failed then OcrJobStatus.partial else OcrJobStatus.completed)

abbrev is_completed : OcrJobStatus → Bool
is_completed OcrJobStatus.completed = true
is_completed _ = false

-- `locale_lt a b` is `a.localeCompare(b) < 0`.
module _ (locale_lt : OcrErrorCode → OcrErrorCode → Bool) where
  pub sorts_before : OcrErrorCode × ℕ → OcrErrorCode × ℕ → Bool
  sorts_before (a, n) (b, m) = ltb m n || (n == m && locale_lt a b)

  -- The head of the sorted entries.
  pub first_entry : OcrErrorCode × ℕ → List (OcrErrorCode × ℕ) → OcrErrorCode × ℕ
  first_entry best [] = best
  first_entry best (e ∷ es) = first_entry (if sorts_before e best then e else best) es

  -- `none` for the empty list, on which the code would throw.
  pub most_common : List OcrErrorCode → Option OcrErrorCode
  most_common values = elim (tally [] values) [ [] ↦ none | e ∷ es ↦ some (first_entry e es).0 ]

  abbrev pub finalized : (now : ℕ) → List OcrPage → OcrJob → OcrJob
  finalized now pages j = record j {
    status = final_status pages;
    extraction_method = extraction_method pages;
    error_code =
        if is_completed (final_status pages) then none else most_common (failed_codes pages);
    completed_at = some now;
    heartbeat_at = some now;
    processed_pages = length pages;
    failed_pages = count_where is_failed pages;
  }

  unfoldable pub finalize : (id now : ℕ) → World → Option OcrJob × World
  finalize id now w =
      let (count, w') = update_jobs (held id) (finalized now (pages_of id w)) w in
      (if not (count == 1) then none else find_job id w', w')
