-- ===== src/Documents/Files/Completion.antt =====
-- `completeUpload` (backend/src/documents/document-files.service.ts) writes READY only where the
-- object was checked.
use docuai.Base.{
  ℕ, ◌≡◌, refl, Bool, true, false, Option, none, some, Text, ok, is_empty, not, ◌&&◌, is_some,
  arith,
}
use docuai.Table.{count_where}
use docuai.Schema.{Document, DocumentStatus, StorageKey}
use docuai.Storage.{StorageProvider, StoredObjectMetadata}
use docuai.World.{World}
use docuai.World.Keeps.{Keeps, Keeps-then, Keeps-bind}
use docuai.Documents.{get_owned, update_documents}
use docuai.Documents.FileChecks.{
  FilesConfig, stored_type_of, upload_problems, uploading_key, verified, rejected, ask,
}
use docuai.Documents.Files.{
  answer_upload, check_object, answer_accepted, reject_upload, settle_upload, refuse_upload,
  check_upload, accept_upload, complete_upload,
}
use docuai.Documents.Files.Verified.{Passes, upload_problems_iff}
use docuai.Documents.Files.Backed.{
  AllBacked, get_owned-AllBacked, verified-Backed, update_documents-AllBacked, update_unready,
}

module _ (config : FilesConfig) (nfc lower : Text → Text) (storage : StorageProvider) where
  -- The objects that the documents of a world need.
  abbrev Safe : World → Type 0
  Safe = AllBacked config lower storage

  get_owned-Safe : (u id : ℕ) → Keeps Safe (get_owned u id)
  get_owned-Safe = get_owned-AllBacked config lower storage

  answer_accepted-documents :
      (u count : ℕ) (d : Document) (w : World)
      → (answer_accepted config nfc lower storage u count d w).1.documents ≡ w.documents
  unfolding answer_accepted
  answer_accepted-documents u count d w = ground arith

  answer_accepted-Safe :
      (u count : ℕ) (d : Document) → Keeps Safe (answer_accepted config nfc lower storage u count d)
  answer_accepted-Safe u count d w h = rw (answer_accepted-documents u count d w) h

  accept_upload-Safe :
      (u id : ℕ) (current : Document) (key : StorageKey) (object : StoredObjectMetadata)
      (etag : Option Text)
      → storage.head_object key ≡ ok (some object)
      → Passes config lower current object etag
      → Keeps Safe (accept_upload config nfc lower storage u id current key object)
  unfolding accept_upload
  accept_upload-Safe u id current key object etag exists passes w h =
      let passed : (Document → Bool) =
        λ d. uploading_key u current.id key d && not (is_some d.deleted_at) in
      Keeps-bind Safe (get_owned u id)
        (answer_accepted config nfc lower storage u (count_where passed w.documents))
        (get_owned-Safe u id) (answer_accepted-Safe u (count_where passed w.documents))
        (update_documents passed (verified object.size (stored_type_of lower object) current) w)
        (update_documents-AllBacked config lower storage passed _
          (λ d t _.
            verified-Backed config lower storage u current.id key object etag current d exists
              passes (ground arith))
          w h)

  refuse_upload-Safe :
      (u : ℕ) (current : Document) (key : StorageKey)
      → Keeps Safe (refuse_upload config nfc lower storage u current key)
  unfolding refuse_upload reject_upload
  refuse_upload-Safe u current key w h =
      update_unready config lower storage (uploading_key u current.id key) rejected (λ d e. cc) w h

  settle_upload-Safe :
      (u id : ℕ) (current : Document) (key : StorageKey) (object : StoredObjectMetadata)
      (etag : Option Text) (passed : Bool)
      → storage.head_object key ≡ ok (some object)
      → (passed ≡ true → Passes config lower current object etag)
      → Keeps Safe (settle_upload config nfc lower storage u id current key object passed)
  unfolding settle_upload
  settle_upload-Safe u id current key object etag true exists passes =
      accept_upload-Safe u id current key object etag exists (passes refl)
  settle_upload-Safe u id current key object etag false exists passes =
      refuse_upload-Safe u current key

  check_object-Safe :
      (u id : ℕ) (current : Document) (key : StorageKey) (etag : Option Text)
      (others : World → World) (found : Option StoredObjectMetadata)
      → storage.head_object key ≡ ok found
      → ((w : World) → Safe w → Safe (others w))
      → Keeps Safe (check_object config nfc lower storage u id current key etag others found)
  unfolding check_object
  check_object-Safe u id current key etag others none exists keeps w h = h
  check_object-Safe u id current key etag others (some object) exists keeps w h =
      settle_upload-Safe u id current key object etag
        (is_empty (upload_problems config lower current object etag)) exists
        (upload_problems_iff config lower current object etag).0 (others w) (keeps w h)

  check_upload-Safe :
      (u id : ℕ) (current : Document) (key : StorageKey) (etag : Option Text)
      (others : World → World)
      → ((w : World) → Safe w → Safe (others w))
      → Keeps Safe (check_upload config nfc lower storage u id current key etag others)
  unfolding check_upload
  check_upload-Safe u id current key etag others keeps =
      Keeps-then Safe (ask (storage.head_object key))
        (check_object config nfc lower storage u id current key etag others) (λ w h. h)
        (λ w found h e h'. check_object-Safe u id current key etag others found e keeps w h')

  answer_upload-Safe :
      (u id : ℕ) (current : Document) (etag : Option Text) (others : World → World)
      (status : DocumentStatus) (key : Option StorageKey)
      → ((w : World) → Safe w → Safe (others w))
      → Keeps Safe (answer_upload config nfc lower storage u id current etag others status key)
  unfolding answer_upload
  answer_upload-Safe u id current etag others DocumentStatus.uploading (some key) keeps =
      check_upload-Safe u id current key etag others keeps
  answer_upload-Safe u id current etag others _ _ keeps = λ w h. h

  pub complete_upload-Safe :
      (u id : ℕ) (etag : Option Text) (others : World → World)
      → ((w : World) → Safe w → Safe (others w))
      → Keeps Safe (complete_upload config nfc lower storage u id etag others)
  unfolding complete_upload
  complete_upload-Safe u id etag others keeps =
      Keeps-bind Safe (get_owned u id)
        (λ d. answer_upload config nfc lower storage u id d etag others d.status d.storage_key)
        (get_owned-Safe u id)
        (λ d. answer_upload-Safe u id d etag others d.status d.storage_key keeps)
