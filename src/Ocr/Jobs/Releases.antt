-- ===== src/Ocr/Jobs/Releases.antt =====
-- The calls that release a job from the worker that holds it
-- (backend/src/ocr/ocr-job.service.ts).
use docuai.Schema.{OcrPage, OcrJob, OcrJobStatus, OcrErrorCode}
use docuai.Ocr.Jobs.{
  pages_of, find_job, fail, requeue, cancel, open_job, held, ended, is_processing,
}
use docuai.Ocr.Jobs.Finalize.{final_status, finalize, finalized}
use docuai.Base.{ℕ, ◌≡◌, refl, Bool, true, false, some, List, [], ◌∷◌, arith, ◌==◌}
use docuai.Table.{find_first, update_many}
use docuai.World.{World}

-- No worker holds the job.
abbrev pub IsReleased : ℕ → World → Type 0
IsReleased id w = (j : OcrJob) → find_job id w ≡ some j → is_processing j.status ≡ false

-- Writing another status to the rows that are held releases the job.
update_many-IsReleased :
    (id : ℕ) (p : OcrJob → Bool) (f : OcrJob → OcrJob) (js : List OcrJob)
    → ((j : OcrJob) → (f j).id ≡ j.id)
    → ((j : OcrJob) → held id j ≡ true → p j ≡ true)
    → ((j : OcrJob) → is_processing (f j).status ≡ false)
    → (j : OcrJob) → find_first (λ j. j.id == id) (update_many p f js) ≡ some j
    → is_processing j.status ≡ false
unfolding find_first update_many
update_many-IsReleased id p f [] same covers writes j e = absurd (cc)
update_many-IsReleased id p f (x ∷ js) same covers writes j e =
    ground
      (arith, same x, covers x, writes x, update_many-IsReleased id p f js same covers writes j)

pub cancel-IsReleased :
    (id : ℕ) (code : OcrErrorCode) (now : ℕ) (w : World) → IsReleased id (cancel id code now w).1
unfolding cancel
cancel-IsReleased id code now w =
    update_many-IsReleased id (open_job id) (ended OcrJobStatus.cancelled code now) w.jobs
      (λ j. refl) (λ j h. ground arith) (λ j. refl)

pub fail-IsReleased :
    (id : ℕ) (code : OcrErrorCode) (now : ℕ) (w : World) → IsReleased id (fail id code now w).1
unfolding fail
fail-IsReleased id code now w =
    update_many-IsReleased id (open_job id) (ended OcrJobStatus.failed code now) w.jobs (λ j. refl)
      (λ j h. ground arith) (λ j. refl)

pub requeue-IsReleased :
    (id : ℕ) (code : OcrErrorCode) (now : ℕ) (w : World) → IsReleased id (requeue id code now w).1
unfolding requeue
requeue-IsReleased id code now w =
    update_many-IsReleased id (held id)
      (λ j. record j {
        status = OcrJobStatus.queued;
        error_code = some code;
        heartbeat_at = some now;
      })
      w.jobs (λ j. refl) (λ j h. h) (λ j. refl)

final_status-released : (pages : List OcrPage) → is_processing (final_status pages) ≡ false
unfolding final_status
final_status-released pages = ground arith

module _ (locale_lt : OcrErrorCode → OcrErrorCode → Bool) where
  pub finalize-IsReleased : (id now : ℕ) (w : World) → IsReleased id (finalize locale_lt id now w).1
  unfolding finalize
  finalize-IsReleased id now w =
      update_many-IsReleased id (held id) (finalized locale_lt now (pages_of id w)) w.jobs
        (λ j. refl) (λ j h. h) (λ j. final_status-released (pages_of id w))
