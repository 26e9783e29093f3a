-- ===== src/Ocr/Worker/Reconcile/Enqueued.antt =====
-- After a pass of OcrWorkerService.reconcile (backend/src/ocr/ocr-worker.service.ts) the queued jobs are
-- in the queue.
use docuai.Base.{ℕ, ◌≡◌, true, false, List, All}
use docuai.Schema.{OcrJob}
use docuai.World.{World}
use docuai.Ocr.Queue.{BullQueue}
use docuai.Ocr.Queue.Laws.{IsPending}
use docuai.Ocr.Worker.Reconcile.{Pass, Ending}

module _ (bull : BullQueue) where
  open bull use {Entries, entry}

  -- What a step that goes on does to the queue: the id is pending, and what was pending still is; the
  -- table stays as it is.
  abbrev Queues : ℕ → Pass bull → Ending bull → Type 0
  Queues id p (false, r) = Unit
  Queues id p (true, r) =
      IsPending bull id r.entries
      × ((k : ℕ) → IsPending bull k p.entries → IsPending bull k r.entries)
      × (r.world ≡ p.world)

  -- What the loop over the queued jobs does, if it ends.
  abbrev QueuesAll : List OcrJob → Pass bull → Ending bull → Type 0
  QueuesAll jobs p (false, r) = Unit
  QueuesAll jobs p (true, r) =
      All (λ (j : OcrJob). IsPending bull j.id r.entries) jobs
      × ((k : ℕ) → IsPending bull k p.entries → IsPending bull k r.entries)
      × (r.world ≡ p.world)
