-- ===== src/Ocr/Jobs/Outcome.antt =====
-- The terminal status that OcrJobService.finalize derives (backend/src/ocr/ocr-job.service.ts).
use docuai.Base.{not, ◌≤◌, ◌≡◌, refl, ◌↔◌, ◌≢◌, true, false, List, [], ◌∷◌, arith, All, length, any}
use docuai.Table.{count_where}
use docuai.Schema.{OcrPage, OcrJobStatus}
use docuai.Ocr.Jobs.{is_failed}
use docuai.Ocr.Jobs.Finalize.{final_status}

count_none_iff :
    (ps : List OcrPage) → (count_where is_failed ps ≡ 0) ↔ All (λ p. is_failed p ≡ false) ps
unfolding count_where
count_none_iff [] = (λ _. tt, λ _. refl)
count_none_iff (p ∷ ps) = grind (arith, count_none_iff ps)

count-le-length : (ps : List OcrPage) → count_where is_failed ps ≤ length ps
unfolding count_where
count-le-length [] = omega arith
count-le-length (p ∷ ps) = ground (arith, count-le-length ps)

count-All_iff :
    (ps : List OcrPage) → (count_where is_failed ps ≡ length ps) ↔ All (λ p. is_failed p ≡ true) ps
unfolding count_where
count-All_iff [] = (λ _. tt, λ _. refl)
count-All_iff (p ∷ ps) = grind (arith, count-All_iff ps, count-le-length ps)

any_failed_iff : (ps : List OcrPage) → (any is_failed ps ≡ true) ↔ (count_where is_failed ps ≢ 0)
unfolding count_where
any_failed_iff [] = (λ h. absurd (cc), λ h. absurd (h refl))
any_failed_iff (p ∷ ps) = grind (arith, any_failed_iff ps)

any_kept_iff :
    (ps : List OcrPage)
    → (any (λ p. not (is_failed p)) ps ≡ true) ↔ (count_where is_failed ps ≢ length ps)
unfolding count_where
any_kept_iff [] = (λ h. absurd (cc), λ h. absurd (h refl))
any_kept_iff (p ∷ ps) = grind (arith, any_kept_iff ps, count-le-length ps)

-- A job ends COMPLETED exactly when it has pages and none of them failed, FAILED exactly when all of
-- its pages failed or it has none, and PARTIAL exactly when some failed and some did not.
pub final_status_iff :
    (ps : List OcrPage)
    → ((final_status ps ≡ OcrJobStatus.completed) ↔ ((ps ≢ []) × All (λ p. is_failed p ≡ false) ps))
      × ((final_status ps ≡ OcrJobStatus.failed) ↔ All (λ p. is_failed p ≡ true) ps)
      × ((final_status ps ≡ OcrJobStatus.partial)
          ↔ ((any is_failed ps ≡ true) × (any (λ p. not (is_failed p)) ps ≡ true)))
unfolding final_status
final_status_iff [] = ground (arith)
final_status_iff (p ∷ ps) =
    let le = count-le-length (p ∷ ps) in
    let none_failed = count_none_iff (p ∷ ps) in
    let all_failed = count-All_iff (p ∷ ps) in
    let some_failed = any_failed_iff (p ∷ ps) in
    let some_kept = any_kept_iff (p ∷ ps) in
    (
      (
        λ h. (λ e. absurd (cc), none_failed.0 (ground arith)),
        λ h. ground (arith, none_failed.1 h.1),
      ),
      (λ h. all_failed.0 (ground arith), λ h. ground (arith, all_failed.1 h)),
      (
        λ h. (some_failed.1 (λ z. ground arith), some_kept.1 (λ z. ground arith)),
        λ h. ground (arith, some_failed.0 h.0, some_kept.0 h.1),
      ),
    )
