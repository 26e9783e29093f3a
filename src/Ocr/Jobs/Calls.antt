-- ===== src/Ocr/Jobs/Calls.antt =====
-- Any interleaving of the methods of OcrJobService (backend/src/ocr/ocr-job.service.ts), by workers,
-- the reconciler and the API: what it can do to a job.
use docuai.Base.{
  ap, inl, inr, Bool-cases, ℕ, ◌≡◌, refl, Bool, true, false, none, some, List, [], ◌∷◌, ◌&&◌, ◌==◌,
  if◌then◌else◌, arith,
}
use docuai.Table.{find_first, update_many}
use docuai.Table.Laws.{find_first-update_many}
use docuai.Schema.{OcrJob, OcrJobStatus, OcrPage, OcrErrorCode}
use docuai.World.{World}
use docuai.Ocr.Jobs.{
  progressed, ended, find_job, claim, claimable, claimed, heartbeat, held, open_job,
  set_total_pages, persist_page, upsert_page, pages_of, fail, requeue, cancel, recover, is_terminal,
  is_stale,
}
use docuai.Ocr.Jobs.Finalize.{finalize, finalized, final_status}

-- The calls that write to a job, with the time of each.
pub data JobCall : Type 0 where
  claims : (id stale now : ℕ) → JobCall
  beats : (id now : ℕ) → JobCall
  sets_total_pages : (id document_id total now : ℕ) → JobCall
  persists : OcrPage → (now : ℕ) → JobCall
  finalizes : (id now : ℕ) → JobCall
  fails : (id : ℕ) → OcrErrorCode → (now : ℕ) → JobCall
  requeues : (id : ℕ) → OcrErrorCode → (now : ℕ) → JobCall
  cancels : (id : ℕ) → OcrErrorCode → (now : ℕ) → JobCall
  recovers : (id stale now : ℕ) → JobCall

-- The changes of status that the design allows: a queued job starts, or ends without results; a
-- processing job goes back to the queue or ends; a job that has ended stays as it is.
abbrev pub allowed : OcrJobStatus → OcrJobStatus → Bool
allowed OcrJobStatus.queued OcrJobStatus.queued = true
allowed OcrJobStatus.queued OcrJobStatus.processing = true
allowed OcrJobStatus.queued OcrJobStatus.failed = true
allowed OcrJobStatus.queued OcrJobStatus.cancelled = true
allowed OcrJobStatus.processing _ = true
allowed OcrJobStatus.completed OcrJobStatus.completed = true
allowed OcrJobStatus.partial OcrJobStatus.partial = true
allowed OcrJobStatus.failed OcrJobStatus.failed = true
allowed OcrJobStatus.cancelled OcrJobStatus.cancelled = true
allowed _ _ = false

rows_by_id :
    (k : ℕ) (p : OcrJob → Bool) (f : OcrJob → OcrJob) (js : List OcrJob)
    → ((j : OcrJob) → (f j).id ≡ j.id)
    → find_first (λ j. j.id == k) (update_many p f js) ≡ elim (find_first (λ j. j.id == k) js) [
      | none ↦ none
      | some j ↦ some (if p j then f j else j)
    ]
rows_by_id k p f js keeps =
    find_first-update_many (λ j. j.id == k) p f js (λ j _. ap (λ (x : ℕ). x == k) (keeps j))

module _ (locale_lt : OcrErrorCode → OcrErrorCode → Bool) where
  abbrev pub after : JobCall → World → World
  after (claims id stale now) w = (claim id stale now w).1
  after (beats id now) w = heartbeat id now w
  after (sets_total_pages id document_id total now) w = set_total_pages id document_id total now w
  after (persists p now) w = persist_page p now w
  after (finalizes id now) w = (finalize locale_lt id now w).1
  after (fails id code now) w = (fail id code now w).1
  after (requeues id code now) w = (requeue id code now w).1
  after (cancels id code now) w = (cancel id code now w).1
  after (recovers id stale now) w = (recover id stale now w).1

  abbrev pub after_all : List JobCall → World → World
  after_all [] w = w
  after_all (c ∷ cs) w = after_all cs (after c w)

  -- The test of the rows that a call changes, and the change.
  test : JobCall → OcrJob → Bool
  test (claims id stale now) j = claimable id stale now j
  test (beats id now) j = held id j
  test (sets_total_pages id document_id total now) j = held id j
  test (persists p now) j = held p.ocr_job_id j
  test (finalizes id now) j = held id j
  test (fails id code now) j = open_job id j
  test (requeues id code now) j = held id j
  test (cancels id code now) j = open_job id j
  test (recovers id stale now) j = held id j && is_stale stale now j

  change : JobCall → World → OcrJob → OcrJob
  change (claims id stale now) w j = claimed now j
  change (beats id now) w j = record j { heartbeat_at = some now }
  change (sets_total_pages id document_id total now) w j = record j {
    total_pages = some total;
    heartbeat_at = some now;
  }
  change (persists p now) w j =
      progressed (pages_of p.ocr_job_id (record w { pages = upsert_page p w.pages })) now j
  change (finalizes id now) w j = finalized locale_lt now (pages_of id w) j
  change (fails id code now) w j = ended OcrJobStatus.failed code now j
  change (requeues id code now) w j = record j {
    status = OcrJobStatus.queued;
    error_code = some code;
    heartbeat_at = some now;
  }
  change (cancels id code now) w j = ended OcrJobStatus.cancelled code now j
  change (recovers id stale now) w j = record j {
    status = OcrJobStatus.queued;
    heartbeat_at = some now;
  }

  after-find :
      (c : JobCall) (w : World) (k : ℕ)
      → find_job k (after c w)
        ≡ elim (find_job k w) [ none ↦ none | some j ↦ some (if test c j then change c w j else j) ]
  unfolding claim heartbeat set_total_pages persist_page finalize fail requeue cancel recover test
      change
  after-find (claims id stale now) w k =
      rows_by_id k (test (claims id stale now)) (change (claims id stale now) w) w.jobs (λ j. refl)
  after-find (beats id now) w k =
      rows_by_id k (test (beats id now)) (change (beats id now) w) w.jobs (λ j. refl)
  after-find (sets_total_pages id document_id total now) w k =
      rows_by_id k (test (sets_total_pages id document_id total now))
        (change (sets_total_pages id document_id total now) w) w.jobs (λ j. refl)
  after-find (persists p now) w k =
      rows_by_id k (test (persists p now)) (change (persists p now) w) w.jobs (λ j. refl)
  after-find (finalizes id now) w k =
      rows_by_id k (test (finalizes id now)) (change (finalizes id now) w) w.jobs (λ j. refl)
  after-find (fails id code now) w k =
      rows_by_id k (test (fails id code now)) (change (fails id code now) w) w.jobs (λ j. refl)
  after-find (requeues id code now) w k =
      rows_by_id k (test (requeues id code now)) (change (requeues id code now) w) w.jobs
        (λ j. refl)
  after-find (cancels id code now) w k =
      rows_by_id k (test (cancels id code now)) (change (cancels id code now) w) w.jobs (λ j. refl)
  after-find (recovers id stale now) w k =
      rows_by_id k (test (recovers id stale now)) (change (recovers id stale now) w) w.jobs
        (λ j. refl)

  -- A finished job passes the test of no call.
  test_terminal : (c : JobCall) (j : OcrJob) → is_terminal j.status ≡ true → test c j ≡ false
  unfolding test
  test_terminal (claims id stale now) j h = ground arith
  test_terminal _ j h = ground arith

  change-allowed :
      (c : JobCall) (w : World) (j : OcrJob)
      → test c j ≡ true
      → allowed j.status (change c w j).status ≡ true
  unfolding test change final_status
  change-allowed (claims id stale now) w j h = ground arith
  change-allowed _ w j h = ground arith

  -- No call removes a job, and each changes its status only as the design allows.
  pub after-allowed :
      (c : JobCall) (w : World) (k : ℕ) (j : OcrJob)
      → find_job k w ≡ some j
      → (j' : OcrJob) × (find_job k (after c w) ≡ some j') × (allowed j.status j'.status ≡ true)
  after-allowed c w k j e = elim (Bool-cases (test c j)) [
    | inl t ↦ (change c w j, ground (arith, after-find c w k), change-allowed c w j t)
    | inr o ↦ (j, ground (arith, after-find c w k), ground arith)
  ]

  after_terminal :
      (c : JobCall) (w : World) (k : ℕ) (j : OcrJob)
      → find_job k w ≡ some j
      → is_terminal j.status ≡ true
      → find_job k (after c w) ≡ some j
  after_terminal c w k j e h = ground (arith, after-find c w k, test_terminal c j h)

  -- The row of a job that has ended, its status included, stays as it is, whatever calls come later,
  -- from whichever worker, reconciler or request, and in whatever order.
  pub after_all_terminal :
      (cs : List JobCall) (w : World) (k : ℕ) (j : OcrJob)
      → find_job k w ≡ some j
      → is_terminal j.status ≡ true
      → find_job k (after_all cs w) ≡ some j
  after_all_terminal [] w k j e h = e
  after_all_terminal (c ∷ cs) w k j e h =
      after_all_terminal cs (after c w) k j (after_terminal c w k j e h) h
