-- ===== src/Ocr/Worker/Settled.antt =====
-- The processing of a job ends its claim (backend/src/ocr/ocr-worker.service.ts).
use docuai.Ocr.Jobs.Releases.{IsReleased}
use docuai.Base.{ℕ, ok, err, Result}
use docuai.World.{World}
use docuai.Ocr.Processing.{Failure}

abbrev Outcome : Type 0
Outcome = Result Failure (Unit {0})

-- A run that returns, rather than fails, has released the job.
abbrev Returned : ℕ → Outcome × World → Type 0
Returned id (ok _, w) = IsReleased id w
Returned id (err e, w) = Unit
