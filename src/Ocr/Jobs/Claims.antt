-- ===== src/Ocr/Jobs/Claims.antt =====
-- Exclusive ownership of a job: OcrJobService.claim (backend/src/ocr/ocr-job.service.ts).
use docuai.Base.{
  ◌⊎◌, ◌∙◌, ℕ, ◌+◌, ◌≤◌, ◌≡◌, refl, Bool, false, some, ◌==◌, if◌then◌else◌, arith, Bool-cases, ◌||◌,
  ◌&&◌, inl, inr,
}
use docuai.Table.{count_where}
use docuai.Table.Laws.{
  find_first-holds, count_where_one, count_where-update_many, find_first-update_many,
}
use docuai.Schema.{OcrJob}
use docuai.World.{World}
use docuai.Ocr.Jobs.{claim, claimable, claimed, find_job, is_queued, is_processing, is_stale}

-- `id` is the primary key of the table.
abbrev pub HasOneJob : ℕ → World → Type 0
HasOneJob id w = count_where (λ j. j.id == id) w.jobs ≡ 1

-- Who may take a job: it is queued, or the heartbeat of its owner is older than `stale`.
abbrev pub is_free : (stale now : ℕ) → OcrJob → Bool
is_free stale now j = is_queued j.status || (is_processing j.status && is_stale stale now j)

claim-is_free :
    (id stale now : ℕ) (w : World) (j : OcrJob)
    → HasOneJob id w
    → find_job id w ≡ some j
    → (claim id stale now w).0 ≡ is_free stale now j
unfolding claim
claim-is_free id stale now w j one e =
    ground (arith, count_where_one (λ j. j.id == id) (is_free stale now) w.jobs one e)

claim-find :
    (id stale now : ℕ) (w : World) (j : OcrJob)
    → find_job id w ≡ some j
    → find_job id (claim id stale now w).1 ≡ some (if is_free stale now j then claimed now j else j)
unfolding claim
claim-find id stale now w j e = ground (
  arith,
  find_first-update_many (λ j. j.id == id) (claimable id stale now) (claimed now) w.jobs
      (λ j _. refl),
  find_first-holds (λ j. j.id == id) w.jobs j e,
)

claim-HasOneJob :
    (id stale now : ℕ) (w : World) → HasOneJob id w → HasOneJob id (claim id stale now w).1
unfolding claim
claim-HasOneJob id stale now w one =
    count_where-update_many (λ j. j.id == id) (claimable id stale now) (claimed now) w.jobs
      (λ j. refl)
    ∙ one

-- A claim is granted exactly to a job that is queued or whose heartbeat is older than `stale`. Then
-- the job is PROCESSING with one more attempt, and no second claim of it is granted before `stale`
-- has passed; a claim that is not granted leaves the job as it is.
pub claim-claim :
    (id stale now later : ℕ) (w : World) (j : OcrJob)
    → HasOneJob id w
    → find_job id w ≡ some j
    → later ≤ now + stale
    → let (granted, w') = claim id stale now w in
      (granted ≡ is_free stale now j)
      × (find_job id w' ≡ some (if granted then claimed now j else j))
      × ((granted ≡ false) ⊎ ((claim id stale later w').0 ≡ false))
claim-claim id stale now later w j one e h =
    let granted = claim-is_free id stale now w j one e in
    let after = claim-find id stale now w j e in
    let again =
      claim-is_free id stale later (claim id stale now w).1
        (if is_free stale now j then claimed now j else j) (claim-HasOneJob id stale now w one)
        after in
    (
      granted,
      rw granted after,
      elim (Bool-cases (is_free stale now j)) [
        | inl free ↦ inr (ground arith)
        | inr busy ↦ inl (granted ∙ busy)
      ],
    )
