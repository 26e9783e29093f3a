-- ===== src/Ocr/Worker/Reconcile.antt =====
-- OcrWorkerService.reconcile (backend/src/ocr/ocr-worker.service.ts): the queue is made to match the
-- table of jobs. A throw of the queue ends the pass; what was done before it stays done.
pub mod Enqueued
mod Tests
use docuai.Base.{ℕ, ◌+◌, Bool, true, false, Option, none, some, List, [], ◌∷◌, leb, if◌then◌else◌}
use docuai.Schema.{OcrJob, OcrErrorCode}
use docuai.World.{World}
use docuai.Ocr.Jobs.{fail, recover, find_stale_processing, find_queued}
use docuai.Ocr.Queue.{BullQueue, enqueue, is_pending, remove_stale_entry}

pub record Summary : Type 0 where
  pub enqueued : ℕ
  pub recovered : ℕ
  pub failed : ℕ

abbrev pub no_summary : Summary
no_summary = record { enqueued = 0; recovered = 0; failed = 0 }

module _ (bull : BullQueue) where
  open bull use {Entries}

  pub record Pass : Type 0 where
    pub world : World
    pub entries : Entries
    pub summary : Summary

  -- The pass goes on, or the queue has thrown.
  abbrev pub Ending : Type 0
  Ending = Bool × Pass

  abbrev pub and_next : Ending → (Pass → Ending) → Ending
  and_next (true, p) k = k p
  and_next (false, p) k = (false, p)

  -- `removeStaleEntry` and `enqueue`
  pub add_entry : ℕ → Pass → Ending
  add_entry id p = elim (remove_stale_entry bull id p.entries) [
    | none ↦ (false, p)
    | some q ↦ elim (enqueue bull id q) [
      | none ↦ (false, record p { entries = q })
      | some q' ↦ (true, record p { entries = q' })
    ]
  ]

  pub count_enqueued : Pass → Pass
  count_enqueued p = record p { summary = record p.summary { enqueued = p.summary.enqueued + 1 } }

  count_recovered : Pass → Pass
  count_recovered p = record p {
    summary = record p.summary { recovered = p.summary.recovered + 1 };
  }

  -- One round of the loop over the queued jobs.
  pub enqueue_queued : OcrJob → Pass → Ending
  enqueue_queued job p = elim (is_pending bull job.id p.entries) [
    | none ↦ (false, p)
    | some pending ↦
        if pending then (true, p) else and_next (add_entry job.id p) (λ r. (true, count_enqueued r))
  ]

  pub enqueue_all : List OcrJob → Pass → Ending
  enqueue_all [] p = (true, p)
  enqueue_all (job ∷ jobs) p = and_next (enqueue_queued job p) (enqueue_all jobs)

  module _ (stale now : ℕ) where
    -- A stale job that has used up its attempts.
    give_up : OcrJob → Pass → Pass
    give_up job p =
        let (ended, w) = fail job.id OcrErrorCode.ocr_worker_interrupted now p.world in
        record p {
          world = w;
          summary = record p.summary {
            failed = if ended then p.summary.failed + 1 else p.summary.failed;
          };
        }

    -- One round of the loop over the stale jobs.
    pub settle_stale : OcrJob → Pass → Ending
    settle_stale job p =
        if leb job.max_attempts job.attempt_count
        then (true, give_up job p)
        else let (recovered, w) = recover job.id stale now p.world in
          if recovered
          then and_next (add_entry job.id (record p { world = w })) (λ r. (true, count_recovered r))
          else (true, record p { world = w })

    pub settle_all : List OcrJob → Pass → Ending
    settle_all [] p = (true, p)
    settle_all (job ∷ jobs) p = and_next (settle_stale job p) (settle_all jobs)

    -- `busy` is the flag `reconciling`.
    pub reconcile : (busy : Bool) → World → Entries → Ending
    reconcile busy w q =
        let start : Pass = record { world = w; entries = q; summary = no_summary } in
        if busy
        then (true, start)
        else and_next (settle_all (find_stale_processing stale now w) start)
            (λ p. enqueue_all (find_queued p.world) p)
