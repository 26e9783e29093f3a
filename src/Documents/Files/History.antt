-- ===== src/Documents/Files/History.antt =====
-- Histories of requests on documents (backend/src/documents/document-files.service.ts,
-- documents.service.ts): no request makes a document READY without a checked object.
use docuai.Folders
use docuai.Folders.{owned}
use docuai.World.{pure, modify, ◌>>◌, record_event, SecurityEventType, World}
use docuai.World.Keeps.{Keeps-bind, Keeps-seq, Keeps-if, Keeps, Keeps-or_throw}
use docuai.Table.{insert_row, count_where}
use docuai.Documents.{
  create, update, remove, write_update, check_folder, CreateDocumentDto, UpdateDocumentDto,
  new_document, apply_update, live, get_owned, is_empty_update, soft_deleted, update_documents,
  not_found,
}
use docuai.Documents.Files.Backed.{
  update_unready, update_documents-AllBacked, insert_row-AllBacked, get_owned-AllBacked, AllBacked,
  not_found-AllBacked,
}
use docuai.Schema.{Document}
use docuai.Folders.Owned.{get_owned-documents}
use docuai.Documents.Files.Completion.{complete_upload-Safe}
use docuai.Documents.Files.Declaration.{create_upload_url-Safe}
use docuai.Documents.FileChecks.{CreateUploadUrlDto, FilesConfig}
use docuai.Documents.Files.{create_upload_url, complete_upload}
use docuai.Base.{
  inl, inr, Bool-cases, ◌==◌, if◌then◌else◌, get_or_else, none, some, Option, ℕ, Text,
}
use docuai.Storage.{StorageProvider}

module _ (config : FilesConfig) (nfc lower : Text → Text) (storage : StorageProvider) where
  -- The objects that the documents of a world need.
  abbrev Safe : World → Type 0
  Safe = AllBacked config lower storage

  check_folder-Safe : (u : ℕ) (o : Option ℕ) → Keeps Safe (check_folder u o)
  unfolding check_folder
  check_folder-Safe u none = λ w h. h
  check_folder-Safe u (some folder) =
      Keeps-bind Safe (Folders.get_owned u folder) (λ _. pure tt)
        (λ w h. rw (get_owned-documents u folder w) h) (λ _ w h. h)

  create-Safe : (u : ℕ) (dto : CreateDocumentDto) (id now : ℕ) → Keeps Safe (create u dto id now)
  unfolding create
  create-Safe u dto id now =
      Keeps-bind Safe (check_folder u dto.folder_id)
        (λ _.
          modify (λ w. record w { documents = insert_row (new_document u dto id now) w.documents })
          >> (record_event SecurityEventType.document_created u
              >> pure (new_document u dto id now)))
        (check_folder-Safe u dto.folder_id)
        (λ _ w h.
          insert_row-AllBacked config lower storage (new_document u dto id now) w.documents
            (λ e. absurd (cc)) h)

  write_update-Safe :
      (u : ℕ) (current : Document) (dto : UpdateDocumentDto)
      → Keeps Safe (write_update u current dto)
  unfolding write_update
  write_update-Safe u current dto w h =
      let written =
        update_documents-AllBacked config lower storage (live u current.id) (apply_update dto)
          (λ d _ old ready.
            let b = old ready in
            record {
              key = b.key;
              object = b.object;
              has_key = b.has_key;
              exists = b.exists;
              has_size = b.has_size;
              is_within = b.is_within;
              has_type = b.has_type;
            })
          w h in
      elim (Bool-cases (count_where (live u current.id) w.documents == 1)) [
        | inl t ↦ rw t (
            Keeps-bind Safe (get_owned u current.id)
              (λ document. record_event SecurityEventType.document_updated u >> pure document)
              (get_owned-AllBacked config lower storage u current.id) (λ document w h. h) _ written)
        | inr t ↦ rw t written
      ]

  update-Safe :
      (u id : ℕ) (dto : UpdateDocumentDto) (others : World → World)
      → ((w : World) → Safe w → Safe (others w))
      → Keeps Safe (update u id dto others)
  unfolding update
  update-Safe u id dto others keeps =
      Keeps-bind Safe (get_owned u id)
        (λ current.
          check_folder u (get_or_else dto.folder_id none)
          >> (modify others
              >> (if is_empty_update dto then pure current else write_update u current dto)))
        (get_owned-AllBacked config lower storage u id)
        (λ current.
          Keeps-seq Safe (check_folder u (get_or_else dto.folder_id none))
            (modify others
              >> (if is_empty_update dto then pure current else write_update u current dto))
            (check_folder-Safe u (get_or_else dto.folder_id none))
            (λ w h.
              Keeps-if Safe (is_empty_update dto) (pure current) (write_update u current dto)
                (λ w h. h) (write_update-Safe u current dto) (others w) (keeps w h)))

  remove-Safe : (u id now : ℕ) → Keeps Safe (remove u id now)
  unfolding remove
  remove-Safe u id now w h =
      Keeps-or_throw Safe (if count_where (live u id) w.documents == 1 then some tt else none)
        (not_found u id)
        (λ _.
          record_event SecurityEventType.document_deleted u
          >> pure (record { id = id; deleted_at = now }))
        (not_found-AllBacked config lower storage u id) (λ _ _ w h. h)
        (update_documents (live u id) (soft_deleted now) w)
        (update_unready config lower storage (live u id) (soft_deleted now) (λ d e. cc) w h)

  -- What the requests of any users do to the world, one by one. While a request waits for the
  -- database or the storage, others run: `gap` says that what happens then is such a sequence again.
  mutual
    pub data Step : World → World → Type 0 where
      creates :
          (u : ℕ) (dto : CreateDocumentDto) (id now : ℕ) (w : World)
          → Step w (create u dto id now w).1
      updates :
          (u id : ℕ) (dto : UpdateDocumentDto) (others : World → World)
          (gap : (w : World) → Steps w (others w)) (w : World)
          → Step w (update u id dto others w).1
      removes : (u id now : ℕ) (w : World) → Step w (remove u id now w).1
      declares :
          (u id : ℕ) (dto : CreateUploadUrlDto) (random : ℕ) (others : World → World)
          (gap : (w : World) → Steps w (others w)) (w : World)
          → Step w (create_upload_url config nfc lower storage u id dto random others w).1
      completes :
          (u id : ℕ) (etag : Option Text) (others : World → World)
          (gap : (w : World) → Steps w (others w)) (w : World)
          → Step w (complete_upload config nfc lower storage u id etag others w).1

    pub data Steps : World → World → Type 0 where
      done : {w : World} → Steps w w
      next : {v w x : World} → Step v w → Steps w x → Steps v x

  mutual
    Step-Safe : {v w : World} → Step v w → Safe v → Safe w
    Step-Safe (Step.creates u dto id now w) h = create-Safe u dto id now w h
    Step-Safe (Step.updates u id dto others gap w) h =
        update-Safe u id dto others (λ w h. Steps-Safe (gap w) h) w h
    Step-Safe (Step.removes u id now w) h = remove-Safe u id now w h
    Step-Safe (Step.declares u id dto random others gap w) h =
        create_upload_url-Safe config nfc lower storage u id dto random others
          (λ w h. Steps-Safe (gap w) h) w h
    Step-Safe (Step.completes u id etag others gap w) h =
        complete_upload-Safe config nfc lower storage u id etag others (λ w h. Steps-Safe (gap w) h)
          w h

    Steps-Safe : {v w : World} → Steps v w → Safe v → Safe w
    Steps-Safe Steps.done h = h
    Steps-Safe (Steps.next s rest) h = Steps-Safe rest (Step-Safe s h)
