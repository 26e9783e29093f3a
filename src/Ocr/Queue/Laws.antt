-- ===== src/Ocr/Queue/Laws.antt =====
-- Removing a stale entry and adding the id again (backend/src/ocr/ocr-queue.service.ts).
use docuai.Base.{
  Bool, ℕ, ◌≡◌, refl, true, false, none, some, ◌==◌, Bool-cases, Option-cases, inl, inr, subst,
  ==→eq,
}
use docuai.Ocr.Queue.{
  is_pending, BullQueue, is_pending_answer, is_pending_state, enqueue, remove_stale_entry,
}

module _ (bull : BullQueue) where
  open bull use {Entries, entry, add, remove, add_new, add_kept, removed, remove_kept}

  -- The queue will still deliver the job.
  abbrev pub IsPending : ℕ → Entries → Type 0
  IsPending id q = is_pending_answer (entry id q) ≡ true

  -- Where the removal of a stale entry returns, the id is free, and what was pending still is.
  remove_stale_entry_lem :
      (id : ℕ) (q q' : Entries)
      → remove_stale_entry bull id q ≡ some q'
      → is_pending_answer (entry id q) ≡ false
      → (entry id q' ≡ some none) × ((k : ℕ) → IsPending k q → IsPending k q')
  unfolding remove_stale_entry
  remove_stale_entry_lem id q q' e free = elim (Option-cases (entry id q)) [
    | inl a ↦ absurd (let f : none ≡ some q' = rw (remove_stale_entry, a) at e in cc)
    | inr (o, a) ↦ elim (Option-cases o) [
      | inl b ↦
          let f : some q ≡ some q' = rw (remove_stale_entry, a, b) at e in
          let same : q ≡ q' = cc in rw (← same) (rw (a, b) refl, λ k h. h)
      | inr (s, b) ↦
          let stale : is_pending_state s ≡ false = rw (a, b) at free in
          let f : some (remove id q) ≡ some q' = rw (remove_stale_entry, a, b, stale) at e in
          let same : remove id q ≡ q' = cc in
          rw (← same) (
            removed id q,
            λ k h. elim (Bool-cases (k == id)) [
              | inl t ↦ absurd (
                  let g : is_pending_answer (entry id q) ≡ true =
                    subst (λ x. IsPending x q) (==→eq k id t) h in
                  cc)
              | inr t ↦ rw (remove_kept id k q t) h
            ],
          )
    ]
  ]

  -- An id that is not pending is, once its stale entry is removed and it is added again; and what was
  -- pending still is.
  pub enqueue_again :
      (id : ℕ) (q q₁ q₂ : Entries)
      → is_pending_answer (entry id q) ≡ false
      → remove_stale_entry bull id q ≡ some q₁
      → enqueue bull id q₁ ≡ some q₂
      → IsPending id q₂ × ((k : ℕ) → IsPending k q → IsPending k q₂)
  unfolding enqueue
  enqueue_again id q q₁ q₂ free e f =
      let (gone, kept) = remove_stale_entry_lem id q q₁ e free in
      (add_new id q₁ q₂ f gone, λ k h. add_kept id k q₁ q₂ f (kept k h))

  pub is_pending_lem :
      (id : ℕ) (q : Entries) (b : Bool)
      → is_pending bull id q ≡ some b
      → is_pending_answer (entry id q) ≡ b
  unfolding is_pending
  is_pending_lem id q b e = elim (Option-cases (entry id q)) [
    | inl a ↦ absurd (let f : none ≡ some b = rw (is_pending, a) at e in cc)
    | inr (o, a) ↦ elim (Option-cases o) [
      | inl c ↦ let f : some false ≡ some b = rw (is_pending, a, c) at e in rw (a, c) (cc)
      | inr (s, c) ↦
          let f : some (is_pending_state s) ≡ some b = rw (is_pending, a, c) at e in rw (a, c) (cc)
    ]
  ]
