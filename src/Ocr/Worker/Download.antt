-- ===== src/Ocr/Worker/Download.antt =====
-- The download of the worker (backend/src/ocr/ocr-worker.service.ts) stays within its limit.
use docuai.Base.{
  ℕ, ◌+◌, ◌≤◌, ◌≡◌, refl, Bool, false, Option, none, some, List, [], ◌∷◌, arith, Result, ok, err,
  Bool-cases, inl, inr,
}
use docuai.Ocr.Processing.{Failure, processing, storage_failure, unexpected}
use docuai.Storage.{StoredObjectStream}
use docuai.Ocr.Worker.{receive, receive_object, download, exceeds}

abbrev pub total : List ℕ → ℕ
total [] = 0
total (n ∷ ns) = n + total ns

receive_bounds :
    (max_bytes received : ℕ) (chunks : List ℕ) (breaks : Bool)
    → received ≤ max_bytes
    → receive max_bytes received chunks breaks ≡ ok tt
    → (received + total chunks ≤ max_bytes) × (breaks ≡ false)
unfolding receive
receive_bounds max_bytes received [] breaks h e = ground arith
receive_bounds max_bytes received (chunk ∷ chunks) breaks h e =
    ground (arith, receive_bounds max_bytes (received + chunk) chunks breaks)

-- A download that succeeds has read an object whole, no chunk of it past the limit.
pub download_bounds :
    (max_bytes : ℕ) (found : Result Failure (Option StoredObjectStream))
    → download max_bytes found ≡ ok tt
    → (object : StoredObjectStream) × (found ≡ ok (some object))
      × (total object.body.chunks ≤ max_bytes)
      × (object.body.breaks ≡ false)
      × ((size : ℕ) → object.size ≡ some size → size ≤ max_bytes)
unfolding download receive_object
download_bounds max_bytes (err storage_failure) e = absurd (cc)
download_bounds max_bytes (err (processing x)) e = absurd (cc)
download_bounds max_bytes (err unexpected) e = absurd (cc)
download_bounds max_bytes (ok none) e = absurd (cc)
download_bounds max_bytes (ok (some object)) e = elim (Bool-cases (exceeds object.size max_bytes)) [
  | inl t ↦ absurd (let f : err _ ≡ ok tt = rw (download, receive_object, t) at e in cc)
  | inr t ↦
      let f : receive max_bytes 0 object.body.chunks object.body.breaks ≡ ok tt =
        rw (download, receive_object, t) at e in
      let (bounded, whole) =
        receive_bounds max_bytes 0 object.body.chunks object.body.breaks (omega arith) f in
      (object, refl, omega arith, whole, λ size k. ground (arith, rw k at t))
]
