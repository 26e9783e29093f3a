-- ===== src/Ocr/Worker/Reconcile/Tests.antt =====
-- The theorem on OcrWorkerService.reconcile (backend/src/ocr/ocr-worker.service.ts) at a concrete input,
-- with a queue that keeps the ids that wait.
use docuai.Table.{order_by, count_where, update_many, find_many}
use docuai.Base.{
  ℕ, ◌≡◌, refl, Bool, true, false, ◌||◌, Option, none, some, List, [], ◌∷◌, arith, ◌==◌,
  if◌then◌else◌, ==_refl,
}
use docuai.Schema.{OcrJob, OcrJobStatus}
use docuai.World.{World}
use docuai.Ocr.Jobs.{recover, find_stale_processing, find_queued}
use docuai.Ocr.Queue.{
  is_pending, remove_stale_entry, enqueue, BullQueue, EntryState, is_pending_answer,
}
use docuai.Ocr.Worker.Reconcile.{
  count_enqueued, enqueue_all, settle_stale, enqueue_queued, settle_all, count_recovered, add_entry,
  Pass, reconcile,
}

abbrev waits : ℕ → List ℕ → Bool
waits k [] = false
waits k (i ∷ q) = i == k || waits k q

abbrev removed_from : ℕ → List ℕ → List ℕ
removed_from k [] = []
removed_from k (i ∷ q) = if i == k then removed_from k q else i ∷ removed_from k q

abbrev entry_of : ℕ → List ℕ → Option (Option EntryState)
entry_of k q = some (if waits k q then some EntryState.waiting else none)

waits-removed_from : (k : ℕ) (q : List ℕ) → waits k (removed_from k q) ≡ false
waits-removed_from k [] = refl
waits-removed_from k (i ∷ q) = ground (arith, waits-removed_from k q)

waits-removed_other :
    (id k : ℕ) (q : List ℕ) → (k == id) ≡ false → waits k (removed_from id q) ≡ waits k q
waits-removed_other id k [] h = refl
waits-removed_other id k (i ∷ q) h = ground (arith, waits-removed_other id k q)

added :
    (id : ℕ) (q q' : List ℕ) → some (id ∷ q) ≡ some q' → is_pending_answer (entry_of id q') ≡ true
added id q q' e = let same : id ∷ q ≡ q' = cc in rw (← same, ==_refl id) refl

added_kept :
    (id k : ℕ) (q q' : List ℕ)
    → some (id ∷ q) ≡ some q'
    → is_pending_answer (entry_of k q) ≡ true
    → is_pending_answer (entry_of k q') ≡ true
added_kept id k q q' e h = let same : id ∷ q ≡ q' = cc in rw (← same) (ground arith)

abbrev waiting_ids : BullQueue
waiting_ids = record {
  Entries = List ℕ;
  entry = entry_of;
  add = λ id q. some (id ∷ q);
  remove = removed_from;
  add_new = λ id q q' e h. added id q q' e;
  add_kept = added_kept;
  removed = λ id q. rw (waits-removed_from id q) refl;
  remove_kept = λ id k q h. rw (waits-removed_other id k q h) refl;
}

abbrev job : OcrJob
job = record {
  id = 1;
  document_id = 2;
  user_id = 7;
  status = OcrJobStatus.processing;
  language = b'e' ∷ b'n' ∷ b'g' ∷ [];
  extraction_method = none;
  total_pages = none;
  processed_pages = 0;
  failed_pages = 0;
  error_code = none;
  attempt_count = 1;
  max_attempts = 3;
  heartbeat_at = some 10;
  started_at = some 5;
  completed_at = none;
  created_at = 2;
}

abbrev before : World
before = record {
  folders = [];
  documents = [];
  jobs = job ∷ record job { id = 4; status = OcrJobStatus.queued } ∷ [];
  pages = [];
  users = [];
  tokens = [];
  removed_objects = [];
  events = [];
}

-- The stale job is recovered, and the one whose entry was lost is added again.
abbrev after : Pass waiting_ids
after = (reconcile waiting_ids 30 100 false before []).1

reconcile_summary : after.summary.enqueued ≡ 1
unfolding reconcile settle_all find_stale_processing order_by find_many settle_stale recover
    count_where add_entry remove_stale_entry enqueue enqueue_all find_queued count_recovered
    update_many enqueue_queued is_pending count_enqueued
reconcile_summary = refl
