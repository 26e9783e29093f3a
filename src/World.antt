-- ===== src/World.antt =====
-- What the services of the API read and change: the tables of the database, the log of security
-- events, and the list of the objects whose removal was asked of the storage. An action is a method
-- of a service; it ends with a value or throws, and the world comes back either way, since what was
-- written before a throw stays written.
pub mod Keeps
pub mod Rows
use docuai.Base.{ℕ, Bool, Option, none, some, List, [], ◌∷◌, ◌++◌, Result, ok, err, if◌then◌else◌}
use docuai.Schema.{User, RefreshToken, StorageKey, Folder, Document, OcrJob, OcrPage}

-- security/security-events.service.ts: the kinds of event that the modelled services record.
pub data SecurityEventType : Type 0 where
  folder_created folder_updated folder_deleted folder_access_denied : SecurityEventType
  document_created document_updated document_deleted document_access_denied : SecurityEventType
  upload_url_created upload_completed upload_rejected download_url_created : SecurityEventType
  ocr_job_requested ocr_retry_requested : SecurityEventType
  register_success register_failed login_success login_failed logout : SecurityEventType
  refresh_token_rotated refresh_token_rejected refresh_token_reuse_detected : SecurityEventType

-- The request id, the address and the details are metadata of the log and are left out.
pub record SecurityEvent : Type 0 where
  pub kind : SecurityEventType
  pub user_id : Option ℕ

pub record World : Type 0 where
  pub folders : List Folder
  pub documents : List Document
  pub jobs : List OcrJob
  pub pages : List OcrPage
  pub users : List User
  pub tokens : List RefreshToken
  pub removed_objects : List StorageKey
  pub events : List SecurityEvent

abbrev pub Action {ℓ} : Type 0 → Type ℓ → Type ℓ
Action E A = World → Result E A × World

infixl 5 ◌>>=◌ ◌>>◌
abbrev pub ◌>>=◌ {ℓ κ} :
    {E : Type 0} {A : Type ℓ} {B : Type κ} → Action E A → (A → Action E B) → Action E B
◌>>=◌ m f w = let (r, w') = m w in elim r [ ok a ↦ f a w' | err e ↦ (err e, w') ]

abbrev pub ◌>>◌ {ℓ} : {E : Type 0} {B : Type ℓ} → Action E (Unit {0}) → Action E B → Action E B
m >> k = m >>= λ _. k

module _ {ℓ} {E : Type 0} {A : Type ℓ} where
  abbrev pub pure : A → Action E A
  pure a w = (ok a, w)

  abbrev pub throw : E → Action E A
  throw e w = (err e, w)

  abbrev pub gets : (World → A) → Action E A
  gets f w = (ok (f w), w)

  -- `if (!value) throw await error;`
  abbrev pub or_throw : Option A → Action E E → Action E A
  or_throw none e w = let (r, w') = e w in elim r [ ok x ↦ (err x, w') | err x ↦ (err x, w') ]
  or_throw (some a) e w = (ok a, w)

  -- `prisma.$transaction`: a throw undoes the writes to the tables, and not those to the log.
  abbrev pub transaction : Action E A → Action E A
  transaction m w =
      let (r, w') = m w in
      elim r [ ok a ↦ (ok a, w') | err e ↦ (err e, record w { events = w'.events }) ]

module _ {E : Type 0} where
  abbrev pub modify : (World → World) → Action E (Unit {0})
  modify f w = (ok tt, f w)

  -- `if (test) throw error;`
  abbrev pub throw_if : Bool → E → Action E (Unit {0})
  throw_if b e w = (if b then err e else ok tt, w)

  abbrev pub record_event : SecurityEventType → ℕ → Action E (Unit {0})
  record_event kind u =
      modify (λ w. record w { events = w.events ++ record { kind = kind; user_id = some u } ∷ [] })

  -- An event that no user is known for.
  abbrev pub record_anonymous : SecurityEventType → Action E (Unit {0})
  record_anonymous kind =
      modify (λ w. record w { events = w.events ++ record { kind = kind; user_id = none } ∷ [] })
