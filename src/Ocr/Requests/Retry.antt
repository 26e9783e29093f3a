-- ===== src/Ocr/Requests/Retry.antt =====
-- OcrService.retry (backend/src/ocr/ocr.service.ts) on a document that has an active job.
use docuai.Base.{ℕ, ◌≡◌, some}
use docuai.Schema.{OcrJob}
use docuai.World.{World}
use docuai.Ocr.Requests.{active_for_document, latest_for_document}

-- The active job of the document, if any, is the newest one that the user has for it.
abbrev pub Newest : (u d : ℕ) → World → Type 0
Newest u d w = (a : OcrJob) → active_for_document d w ≡ some a → latest_for_document d u w ≡ some a
