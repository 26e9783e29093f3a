-- ===== src/Documents/Isolated.antt =====
-- The requests to DocumentsService (backend/src/documents/documents.service.ts) leave the rows of other
-- users. `others` is what other requests do in a gap.
use docuai.Base.{
  ℕ, ◌≡◌, ◌≢◌, ◌∙◌, refl, true, Bool, none, some, Option, inl, inr, arith, ◌==◌, Bool-cases,
  get_or_else, if◌then◌else◌,
}
use docuai.Table.{count_where, insert_row}
use docuai.Table.Laws.{find_many-update_many, find_many-insert_row}
use docuai.Schema.{Document}
use docuai.World.{World, pure, modify, record_event, SecurityEventType, ◌>>◌}
use docuai.World.Keeps.{Keeps-seq, Keeps, Keeps-bind, Keeps-if, Keeps-or_throw}
use docuai.World.Rows.{SameRows, documents_of_become, folders_of_become}
use docuai.Folders
use docuai.Folders.Owned.{get_owned-documents, get_owned-folders}
use docuai.Documents.Owned.{get_owned-Keeps, not_found-Keeps}
use docuai.Documents.{
  live, update_documents, not_found, get_owned, check_folder, new_document, create, write_update,
  update, remove, CreateDocumentDto, UpdateDocumentDto, apply_update, is_empty_update, soft_deleted,
}

module _ (u v : ℕ) (other : v ≢ u) (before : World) where
  -- The other user's rows are still those of `before`.
  abbrev pub Untouched : World → Type 0
  Untouched w = SameRows v before w

  pub same_tables-Untouched :
      (w w' : World)
      → w'.documents ≡ w.documents
      → w'.folders ≡ w.folders
      → Untouched w
      → Untouched w'
  same_tables-Untouched w w' d f (p, q) =
      (documents_of_become v w' d ∙ p, folders_of_become v w' f ∙ q)

  check_folder-Untouched : (o : Option ℕ) → Keeps Untouched (check_folder u o)
  unfolding check_folder
  check_folder-Untouched none = λ w h. h
  check_folder-Untouched (some folder) =
      Keeps-bind Untouched (Folders.get_owned u folder) (λ _. pure tt)
        (λ w h.
          same_tables-Untouched w (Folders.get_owned u folder w).1 (get_owned-documents u folder w)
            (get_owned-folders u folder w) h)
        (λ _ w h. h)

  pub update_documents-Untouched :
      (p : Document → Bool) (f : Document → Document) (w : World)
      → ((d : Document) → p d ≡ true → d.user_id ≡ u)
      → ((d : Document) → (f d).user_id ≡ d.user_id)
      → Untouched w
      → Untouched (update_documents p f w)
  update_documents-Untouched p f w mine same (h, k) = (
    find_many-update_many (λ d. d.user_id == v) p f w.documents
          (λ d m t. let owner = mine d t in ground (arith, owner)) (λ d. rw (same d) refl)
        ∙ h,
    k,
  )

  create-Untouched : (dto : CreateDocumentDto) (id now : ℕ) → Keeps Untouched (create u dto id now)
  unfolding create
  create-Untouched dto id now =
      Keeps-bind Untouched (check_folder u dto.folder_id)
        (λ _.
          modify (λ w. record w { documents = insert_row (new_document u dto id now) w.documents })
          >> (record_event SecurityEventType.document_created u
              >> pure (new_document u dto id now)))
        (check_folder-Untouched dto.folder_id)
        (λ _ w (h, k). (
          find_many-insert_row (λ d. d.user_id == v) (new_document u dto id now) w.documents
                (ground arith)
              ∙ h,
          k,
        ))

  get_owned-Untouched : (id : ℕ) → Keeps Untouched (get_owned u id)
  get_owned-Untouched id = get_owned-Keeps Untouched (λ w es h. h) u id

  write_update-Untouched :
      (current : Document) (dto : UpdateDocumentDto) → Keeps Untouched (write_update u current dto)
  unfolding write_update
  write_update-Untouched current dto w h =
      let written =
        update_documents-Untouched (live u current.id) (apply_update dto) w (λ d t. ground arith)
          (λ d. refl) h in
      elim (Bool-cases (count_where (live u current.id) w.documents == 1)) [
        | inl t ↦ rw t (
            Keeps-bind Untouched (get_owned u current.id)
              (λ document. record_event SecurityEventType.document_updated u >> pure document)
              (get_owned-Untouched current.id) (λ document w h. h) _ written)
        | inr t ↦ rw t written
      ]

  update-Untouched :
      (id : ℕ) (dto : UpdateDocumentDto) (others : World → World)
      → ((w : World) → SameRows v w (others w))
      → Keeps Untouched (update u id dto others)
  unfolding update
  update-Untouched id dto others keeps =
      Keeps-bind Untouched (get_owned u id)
        (λ current.
          check_folder u (get_or_else dto.folder_id none)
          >> (modify others
              >> (if is_empty_update dto then pure current else write_update u current dto)))
        (get_owned-Untouched id)
        (λ current.
          Keeps-seq Untouched (check_folder u (get_or_else dto.folder_id none))
            (modify others
              >> (if is_empty_update dto then pure current else write_update u current dto))
            (check_folder-Untouched (get_or_else dto.folder_id none))
            (λ w (h, k).
              let (p, q) = keeps w in
              Keeps-if Untouched (is_empty_update dto) (pure current) (write_update u current dto)
                (λ w h. h) (write_update-Untouched current dto) (others w) (p ∙ h, q ∙ k)))

  remove-Untouched : (id now : ℕ) → Keeps Untouched (remove u id now)
  unfolding remove
  remove-Untouched id now w h =
      Keeps-or_throw Untouched (if count_where (live u id) w.documents == 1 then some tt else none)
        (not_found u id)
        (λ _.
          record_event SecurityEventType.document_deleted u
          >> pure (record { id = id; deleted_at = now }))
        (not_found-Keeps Untouched (λ w es h. h) u id) (λ _ _ w h. h)
        (update_documents (live u id) (soft_deleted now) w)
        (update_documents-Untouched (live u id) (soft_deleted now) w (λ d t. ground arith)
          (λ d. refl) h)

-- A request of a user, with what the database draws for it.
pub data DocumentRequest : Type 0 where
  creates : CreateDocumentDto → (id now : ℕ) → DocumentRequest
  updates : (id : ℕ) → UpdateDocumentDto → DocumentRequest
  removes : (id now : ℕ) → DocumentRequest

abbrev pub after_request : (u : ℕ) (others : World → World) → DocumentRequest → World → World
after_request u others (creates dto id now) w = (create u dto id now w).1
after_request u others (updates id dto) w = (update u id dto others w).1
after_request u others (removes id now) w = (remove u id now w).1

-- A request of a user to the documents, refused or not, leaves the documents and the folders of every
-- other user as they were; provided that the requests in its gap do.
pub after_request-SameRows :
    (u v : ℕ) (others : World → World) (r : DocumentRequest) (w : World)
    → v ≢ u
    → ((x : World) → SameRows v x (others x))
    → SameRows v w (after_request u others r w)
after_request-SameRows u v others (creates dto id now) w other keeps =
    create-Untouched u v other w dto id now w (refl, refl)
after_request-SameRows u v others (updates id dto) w other keeps =
    update-Untouched u v other w id dto others keeps w (refl, refl)
after_request-SameRows u v others (removes id now) w other keeps =
    remove-Untouched u v other w id now w (refl, refl)
