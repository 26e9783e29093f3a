-- ===== src/Ocr/Queue.antt =====
-- backend/src/ocr/ocr-queue.service.ts: the entries of the queue. BullMQ is a parameter: what it
-- answers for an id, `none` where the call throws, and what adding and removing do to its entries.
pub mod Laws
use docuai.Base.{ℕ, Bool, true, false, Option, none, some, if◌then◌else◌, ◌≡◌, ◌==◌}

pub data EntryState : Type 0 where
  waiting active delayed prioritized waiting_children completed failed : EntryState

-- PENDING_STATES
abbrev pub is_pending_state : EntryState → Bool
is_pending_state EntryState.completed = false
is_pending_state EntryState.failed = false
is_pending_state _ = true

-- An entry that is there and will still be delivered.
abbrev pub is_pending_answer : Option (Option EntryState) → Bool
is_pending_answer none = false
is_pending_answer (some none) = false
is_pending_answer (some (some s)) = is_pending_state s

-- What BullMQ documents: an id that is added anew waits, an id that is there already is left as it is;
-- and an entry that is removed is gone, and no other.
pub record BullQueue : Type 1 where
  pub Entries : Type 0
  pub entry : ℕ → Entries → Option (Option EntryState)
  pub add : ℕ → Entries → Option Entries
  pub remove : ℕ → Entries → Entries
  pub add_new :
      (id : ℕ) (q q' : Entries)
      → add id q ≡ some q'
      → entry id q ≡ some none
      → is_pending_answer (entry id q') ≡ true
  pub add_kept :
      (id k : ℕ) (q q' : Entries)
      → add id q ≡ some q'
      → is_pending_answer (entry k q) ≡ true
      → is_pending_answer (entry k q') ≡ true
  pub removed : (id : ℕ) (q : Entries) → entry id (remove id q) ≡ some none
  pub remove_kept : (id k : ℕ) (q : Entries) → (k == id) ≡ false → entry k (remove id q) ≡ entry k q

module _ (bull : BullQueue) where
  open bull use {Entries, entry, add, remove}

  -- `enqueue`, `none` where it throws
  unfoldable pub enqueue : ℕ → Entries → Option Entries
  enqueue id q = add id q

  -- `isPending`
  unfoldable pub is_pending : ℕ → Entries → Option Bool
  is_pending id q = elim (entry id q) [
    | none ↦ none
    | some e ↦ elim e [ none ↦ some false | some s ↦ some (is_pending_state s) ]
  ]

  -- `removeStaleEntry`
  unfoldable pub remove_stale_entry : ℕ → Entries → Option Entries
  remove_stale_entry id q = elim (entry id q) [
    | none ↦ none
    | some e ↦ elim e [
      | none ↦ some q
      | some s ↦ if is_pending_state s then some q else some (remove id q)
    ]
  ]
