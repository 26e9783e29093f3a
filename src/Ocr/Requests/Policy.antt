-- ===== src/Ocr/Requests/Policy.antt =====
-- The policy of OcrService.request on duplicate jobs (backend/src/ocr/ocr.service.ts).
use docuai.World.{
  throw_if, record_event, SecurityEventType, pure, ◌>>◌, ◌>>=◌, World, Action, transaction,
}
use docuai.World.Keeps.{Keeps-seq, Keeps-bind, Keeps}
use docuai.Documents.{get_owned}
use docuai.Documents.FileChecks.{ask}
use docuai.Documents.Owned.{get_owned-Keeps}
use docuai.Schema.{OcrErrorCode, Document, OcrJob}
use docuai.Ocr.Requests.{
  request, request_resolved, request_locked, record_created, assert_processable, unprocessable,
  ocr_error, OcrRequestResult, OcrRequestOutcome, reusable, decide, OcrConfig, latest, active_of,
  active_for_document, create_job, create_fresh, over_quota, new_job,
}
use docuai.Base.{
  Text, same_text, Result, ok, not, Option, Option-cases, ℕ, ◌+◌, ◌≤◌, ◌≡◌, refl, Bool, none, List,
  [], ◌∷◌, inl, inr, arith, Bool-cases, Result-cases, ◌==◌, if◌then◌else◌,
}
use docuai.Table.{count_where, insert_row}
use docuai.Errors.{AppException}

-- At most one job of a document is queued or processing.
abbrev pub OneActive : World → Type 0
OneActive w = (d : ℕ) → count_where (active_of d) w.jobs ≤ 1

pub latest-count_where :
    (p : OcrJob → Bool) (js : List OcrJob) → latest p js ≡ none → count_where p js ≡ 0
unfolding latest count_where
latest-count_where p [] e = refl
latest-count_where p (j ∷ js) e = ground (arith, latest-count_where p js)

count_where-insert_row :
    (p : OcrJob → Bool) (a : OcrJob) (xs : List OcrJob)
    → count_where p (insert_row a xs) ≡ count_where p xs + (if p a then 1 else 0)
unfolding count_where insert_row
count_where-insert_row p a [] = ground arith
count_where-insert_row p a (x ∷ xs) = ground (arith, count_where-insert_row p a xs)

pub transaction-OneActive {ℓ} :
    {A : Type ℓ} (m : Action AppException A) → Keeps OneActive m → Keeps OneActive (transaction m)
transaction-OneActive m keeps w h = elim (Result-cases (m w).0) [
  | inl (a, e) ↦ rw (transaction, e) (keeps w h)
  | inr (x, e) ↦ rw (transaction, e) h
]

module _ (config : OcrConfig) where
  pub insert_row-OneActive :
      (u d : ℕ) (language : Text) (id now : ℕ) (w : World)
      → OneActive w
      → count_where (active_of d) w.jobs ≡ 0
      → (k : ℕ)
      → count_where (active_of k) (insert_row (new_job config u d language id now) w.jobs) ≤ 1
  insert_row-OneActive u d language id now w h zero k =
      let grown =
        count_where-insert_row (active_of k) (new_job config u d language id now) w.jobs in
      let old = h k in
      elim (Bool-cases (d == k)) [
        | inl t ↦
            let same : d ≡ k = ground arith in
            let none_yet : count_where (active_of k) w.jobs ≡ 0 = rw (← same) zero in ground arith
        | inr t ↦ ground arith
      ]

  create_fresh-jobs :
      (u d : ℕ) (language : Text) (id now : ℕ) (w : World)
      → (create_fresh config u d language id now w).1.jobs ≡ (
          if over_quota config u d w
          then w.jobs
          else insert_row (new_job config u d language id now) w.jobs)
  unfolding create_fresh create_job
  create_fresh-jobs u d language id now w = ground arith

  create_job-OneActive :
      (u d : ℕ) (language : Text) (id now : ℕ) (w : World)
      → OneActive w
      → active_for_document d w ≡ none
      → OneActive (create_fresh config u d language id now w).1
  unfolding active_for_document
  create_job-OneActive u d language id now w h e k = elim (Bool-cases (over_quota config u d w)) [
    | inl t ↦ rw (create_fresh-jobs u d language id now w, t) (h k)
    | inr t ↦
        rw (create_fresh-jobs u d language id now w, t)
          (insert_row-OneActive u d language id now w h (latest-count_where (active_of d) w.jobs e)
            k)
  ]

  decide-OneActive :
      (u d : ℕ) (language : Text) (force : Bool) (id now : ℕ)
      → Keeps OneActive (decide config u d language force id now)
  unfolding decide
  decide-OneActive u d language force id now w h = elim (Option-cases (active_for_document d w)) [
    | inl e ↦ elim (Option-cases (reusable config d language force w)) [
      | inl r ↦ rw (decide, e, r) (create_job-OneActive u d language id now w h e)
      | inr (j, r) ↦ rw (decide, e, r) h
    ]
    | inr (j, e) ↦ elim (Bool-cases (same_text j.language language)) [
      | inl t ↦ rw (decide, e, t) h
      | inr t ↦ rw (decide, e, t) h
    ]
  ]

  record_created-OneActive :
      (u : ℕ) (r : OcrRequestResult) → Keeps OneActive (record_created config u r)
  unfolding record_created
  record_created-OneActive u r w h =
      elim r.outcome
        as (λ o.
          OneActive
            (elim o as (λ _. Result AppException OcrRequestResult × World) [
              | OcrRequestOutcome.created ↦
                  (record_event SecurityEventType.ocr_job_requested u >> pure r) w
              | _ ↦ (ok r, w)
            ]).1) [
              | OcrRequestOutcome.created ↦ h
              | OcrRequestOutcome.active ↦ h
              | OcrRequestOutcome.existing ↦ h
            ]

  request_locked-OneActive :
      (u d : ℕ) (language : Text) (force : Bool) (id now : ℕ) (others : World → World)
      → ((v : World) → OneActive v → OneActive (others v))
      → Keeps OneActive (request_locked config u d language force id now others)
  unfolding request_locked
  request_locked-OneActive u d language force id now others keeps w h =
      Keeps-bind OneActive (transaction (decide config u d language force id now))
        (record_created config u)
        (transaction-OneActive (decide config u d language force id now)
          (decide-OneActive u d language force id now))
        (record_created-OneActive u) (others w) (keeps w h)

  assert_processable-OneActive :
      (document : Document) → Keeps OneActive (assert_processable config document)
  unfolding assert_processable
  assert_processable-OneActive document w h = elim (Option-cases (unprocessable config document)) [
    | inl e ↦ rw (assert_processable, e) h
    | inr (x, e) ↦ rw (assert_processable, e) h
  ]

  request_resolved-OneActive :
      (u d : ℕ) (language : Text) (force : Bool) (id now : ℕ) (others : World → World)
      (document : Document)
      → ((v : World) → OneActive v → OneActive (others v))
      → Keeps OneActive (request_resolved config u d language force id now others document)
  unfolding request_resolved
  request_resolved-OneActive u d language force id now others document keeps =
      Keeps-seq OneActive (assert_processable config document)
        (request_locked config u d language force id now others)
        (assert_processable-OneActive document)
        (request_locked-OneActive u d language force id now others keeps)

  -- A request for OCR, whatever its outcome, leaves at most one job of each document queued or
  -- processing, if that held before and other requests keep it until the document is locked.
  pub request-OneActive :
      (resolve : Option Text → Result AppException Text) (u d : ℕ) (language : Option Text)
      (force : Bool) (id now : ℕ) (others : World → World) (w : World)
      → ((v : World) → OneActive v → OneActive (others v))
      → OneActive w
      → OneActive (request config resolve u d language force id now others w).1
  unfolding request
  request-OneActive resolve u d language force id now others w keeps h =
      Keeps-seq OneActive
        (throw_if (not config.enabled) (ocr_error 503 OcrErrorCode.ocr_unavailable))
        (get_owned u d >>= λ document. ask (resolve language) >>= λ resolved.
          request_resolved config u d resolved force id now others document)
        (λ w h. h)
        (Keeps-bind OneActive (get_owned u d)
          (λ document. ask (resolve language) >>= λ resolved.
            request_resolved config u d resolved force id now others document)
          (get_owned-Keeps OneActive (λ w es h. h) u d)
          (λ document.
            Keeps-bind OneActive (ask (resolve language))
              (λ resolved. request_resolved config u d resolved force id now others document)
              (λ w h. h)
              (λ resolved.
                request_resolved-OneActive u d resolved force id now others document keeps)))
        w h
