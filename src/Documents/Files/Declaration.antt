-- ===== src/Documents/Files/Declaration.antt =====
-- `createUploadUrl` (backend/src/documents/document-files.service.ts) makes no document READY.
use docuai.Base.{
  ◌-◌, ◌^◌, ◌||◌, ltb, includes_text, Option-cases, inl, inr, Bool-cases, ◌==◌, ℕ, ◌≡◌, refl,
  Option, none, some, Text, not, arith,
}
use docuai.Table.{count_where}
use docuai.Schema.{Document, StorageKey}
use docuai.Storage.{StorageProvider}
use docuai.World.{throw_if, modify, ◌>>=◌, ◌>>◌, pure, record_event, SecurityEventType, World}
use docuai.World.Keeps.{Keeps, Keeps-bind}
use docuai.Documents.{get_owned}
use docuai.Documents.FileName.{normalize_mime_type, sanitize_file_name}
use docuai.Documents.FileChecks.{
  CreateUploadUrlDto, invalid_upload, same_key, superseded, is_uploadable, declared, uploadable,
  FilesConfig, ask,
}
use docuai.Documents.Files.{
  request_upload, create_upload_url, validate_file_size, validate_content_type, validate_file_name,
  declare_upload, issue_upload_url,
}
use docuai.Documents.Files.Backed.{AllBacked, get_owned-AllBacked, update_unready}

module _ (config : FilesConfig) (nfc lower : Text → Text) (storage : StorageProvider) where
  -- The objects that the documents of a world need.
  abbrev Safe : World → Type 0
  Safe = AllBacked config lower storage

  get_owned-Safe : (u id : ℕ) → Keeps Safe (get_owned u id)
  get_owned-Safe = get_owned-AllBacked config lower storage

  issue_upload_url-Safe :
      (u id : ℕ) (key : StorageKey) (content_type : Text) (size : ℕ)
      → Keeps Safe (issue_upload_url config nfc lower storage u id key content_type size)
  unfolding issue_upload_url
  issue_upload_url-Safe u id key content_type size =
      Keeps-bind Safe
        (ask (
          storage.create_upload_url (record {
            key = key;
            content_type = content_type;
            content_length = size;
            expires_in_seconds = config.upload_url_ttl_seconds;
          })))
        (λ presigned. get_owned u id >>= λ document.
          record_event SecurityEventType.upload_url_created u
          >> pure (record { presigned = presigned; document = document }))
        (λ w h. h)
        (λ presigned.
          Keeps-bind Safe (get_owned u id)
            (λ document.
              record_event SecurityEventType.upload_url_created u
              >> pure (record { presigned = presigned; document = document }))
            (get_owned-Safe u id) (λ document w h. h))

  superseded-Safe :
      (o : Option StorageKey) (key : StorageKey) (w : World) → Safe w → Safe (superseded o key w)
  unfolding superseded
  superseded-Safe none key w h = h
  superseded-Safe (some old) key w h = elim (Bool-cases (same_key old key)) [
    | inl t ↦ rw t h
    | inr t ↦ rw t h
  ]

  declare_upload-Safe :
      (u id : ℕ) (current : Document) (key : StorageKey) (content_type : Text) (size : ℕ)
      (name : Text)
      → Keeps Safe (declare_upload config nfc lower storage u id current key content_type size name)
  unfolding declare_upload
  declare_upload-Safe u id current key content_type size name w h =
      let written =
        update_unready config lower storage (uploadable u current.id)
          (declared key content_type size name) (λ d e. cc) w h in
      elim (Bool-cases (count_where (uploadable u current.id) w.documents == 1)) [
        | inl t ↦ rw t (
            issue_upload_url-Safe u id key content_type size _
              (superseded-Safe current.storage_key key _ written))
        | inr t ↦ rw t written
      ]

  request_upload-Safe :
      (u id : ℕ) (content_type : Text) (size : ℕ) (name : Text) (random : ℕ)
      (others : World → World)
      → ((w : World) → Safe w → Safe (others w))
      → Keeps Safe
          (request_upload config nfc lower storage u id content_type size name random others)
  unfolding request_upload
  request_upload-Safe u id content_type size name random others keeps =
      Keeps-bind Safe (get_owned u id)
        (λ current.
          throw_if (not (is_uploadable current.status)) invalid_upload
          >> (modify others
              >> declare_upload config nfc lower storage u id current
                  (record { owner = u; document = current.id; random = random }) content_type size
                  name))
        (get_owned-Safe u id)
        (λ current w h. elim (Bool-cases (is_uploadable current.status)) [
          | inl t ↦ rw t (
              declare_upload-Safe u id current
                (record { owner = u; document = current.id; random = random }) content_type size
                name (others w) (keeps w h))
          | inr t ↦ rw t h
        ])

  -- The checks of a declaration change nothing.
  validate_content_type-Safe :
      (raw : Text) → Keeps Safe (validate_content_type config nfc lower raw)
  unfolding validate_content_type
  validate_content_type-Safe raw w h =
      elim (Bool-cases (includes_text config.allowed_mime_types (normalize_mime_type lower raw))) [
        | inl t ↦ rw t h
        | inr t ↦ rw t h
      ]

  validate_file_size-Safe : (size : ℕ) → Keeps Safe (validate_file_size config nfc lower size)
  unfolding validate_file_size
  validate_file_size-Safe size w h = elim (Bool-cases (ltb (2 ^ 53 - 1) size || ltb size 1)) [
    | inl t ↦ rw t h
    | inr t ↦ elim (Bool-cases (ltb config.max_file_size_bytes size)) [
      | inl c ↦ rw (t, c) h
      | inr c ↦ rw (t, c) h
    ]
  ]

  validate_file_name-world :
      (raw content_type : Text) (w : World)
      → (validate_file_name config nfc lower raw content_type w).1 ≡ w
  unfolding validate_file_name
  validate_file_name-world raw content_type w =
      elim (Option-cases (sanitize_file_name nfc lower raw)) [
        | inl e ↦ rw e refl
        | inr (name, e) ↦ rw e (ground arith)
      ]

  validate_file_name-Safe :
      (raw content_type : Text) → Keeps Safe (validate_file_name config nfc lower raw content_type)
  validate_file_name-Safe raw content_type w h = rw (validate_file_name-world raw content_type w) h

  pub create_upload_url-Safe :
      (u id : ℕ) (dto : CreateUploadUrlDto) (random : ℕ) (others : World → World)
      → ((w : World) → Safe w → Safe (others w))
      → Keeps Safe (create_upload_url config nfc lower storage u id dto random others)
  unfolding create_upload_url
  create_upload_url-Safe u id dto random others keeps =
      Keeps-bind Safe (validate_content_type config nfc lower dto.content_type)
        (λ content_type. validate_file_size config nfc lower dto.file_size >>= λ size.
          validate_file_name config nfc lower dto.file_name content_type >>= λ name.
          request_upload config nfc lower storage u id content_type size name random others)
        (validate_content_type-Safe dto.content_type)
        (λ content_type.
          Keeps-bind Safe (validate_file_size config nfc lower dto.file_size)
            (λ size. validate_file_name config nfc lower dto.file_name content_type >>= λ name.
              request_upload config nfc lower storage u id content_type size name random others)
            (validate_file_size-Safe dto.file_size)
            (λ size.
              Keeps-bind Safe (validate_file_name config nfc lower dto.file_name content_type)
                (λ name.
                  request_upload config nfc lower storage u id content_type size name random others)
                (validate_file_name-Safe dto.file_name content_type)
                (λ name. request_upload-Safe u id content_type size name random others keeps)))
