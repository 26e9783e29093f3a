-- ===== src/Documents/Files/Backed.antt =====
-- A document is READY only with an object that was checked
-- (backend/src/documents/document-files.service.ts, documents.service.ts).
use docuai.Base.{
  ap, Option, ok, inl, inr, Bool-cases, subst, ℕ, ◌≡◌, ◌≢◌, refl, sym, ◌≤◌, Bool, true, none, some,
  List, [], ◌∷◌, Memᴰ, arith, Text, includes_text,
}
use docuai.World.Keeps.{Keeps, Keeps-bind, or_throw-Keeps}
use docuai.Documents.Files.Verified.{Passes}
use docuai.Documents.{not_found, get_owned, live, update_documents, or_throw}
use docuai.World.{gets, or_throw, World}
use docuai.Documents.FileChecks.{verified, holds_key, uploading_key, FilesConfig, stored_type_of}
use docuai.Table.{update_many, insert_row, find_first}
use docuai.Schema.{Document, DocumentStatus, StorageKey}
use docuai.Storage.{StorageProvider, StoredObjectMetadata}

module _ (config : FilesConfig) (lower : Text → Text) (storage : StorageProvider) where
  -- The object of a document: it exists under the key of the document, has the recorded size, which
  -- is within the limit, and a type that it reports is the recorded one and allowed.
  pub record IsBacked (d : Document) : Type 0 where
    pub key : StorageKey
    pub object : StoredObjectMetadata
    pub has_key : d.storage_key ≡ some key
    pub exists : storage.head_object key ≡ ok (some object)
    pub has_size : d.file_size ≡ some object.size
    pub is_within : object.size ≤ config.max_file_size_bytes
    pub has_type :
        (t : Text)
        → stored_type_of lower object ≡ some t
        → (d.mime_type ≡ some t) × (includes_text config.allowed_mime_types t ≡ true)

  abbrev pub Backed : Document → Type 0
  Backed d = d.status ≡ DocumentStatus.ready → IsBacked d

  abbrev pub AllBacked : World → Type 0
  AllBacked w = (d : Document) → Memᴰ d w.documents → Backed d

  pub update_many-AllBacked :
      (p : Document → Bool) (f : Document → Document) (ds : List Document)
      → ((d : Document) → p d ≡ true → Backed d → Backed (f d))
      → ((d : Document) → Memᴰ d ds → Backed d)
      → (d : Document) → Memᴰ d (update_many p f ds)
      → Backed d
  unfolding update_many
  update_many-AllBacked p f [] new old d m = elim m [ ]
  update_many-AllBacked p f (x ∷ ds) new old d (Memᴰ.head e) = elim (Bool-cases (p x)) [
    | inl t ↦ let s : f x ≡ d = cc in subst Backed s (new x t (old x (Memᴰ.head refl)))
    | inr t ↦ let s : x ≡ d = cc in subst Backed s (old x (Memᴰ.head refl))
  ]
  update_many-AllBacked p f (x ∷ ds) new old d (Memᴰ.tail m) =
      update_many-AllBacked p f ds new (λ d m. old d (Memᴰ.tail m)) d m

  pub insert_row-AllBacked :
      (x : Document) (ds : List Document)
      → Backed x
      → ((d : Document) → Memᴰ d ds → Backed d)
      → (d : Document) → Memᴰ d (insert_row x ds)
      → Backed d
  unfolding insert_row
  insert_row-AllBacked x [] new old d (Memᴰ.head e) = subst Backed (sym e) new
  insert_row-AllBacked x [] new old d (Memᴰ.tail m) = elim m [ ]
  insert_row-AllBacked x (y ∷ ds) new old d (Memᴰ.head e) = old d (Memᴰ.head e)
  insert_row-AllBacked x (y ∷ ds) new old d (Memᴰ.tail m) =
      insert_row-AllBacked x ds new (λ d m. old d (Memᴰ.tail m)) d m

  not_found-documents : (u id : ℕ) (w : World) → (not_found u id w).1.documents ≡ w.documents
  unfolding not_found
  not_found-documents u id w = ground arith

  pub not_found-AllBacked : (u id : ℕ) → Keeps AllBacked (not_found u id)
  not_found-AllBacked u id w h = rw (not_found-documents u id w) h

  pub get_owned-AllBacked : (u id : ℕ) → Keeps AllBacked (get_owned u id)
  unfolding get_owned
  get_owned-AllBacked u id =
      Keeps-bind AllBacked (gets (λ w. find_first (live u id) w.documents))
        (λ o. or_throw o (not_found u id)) (λ w h. h)
        (λ o. or_throw-Keeps AllBacked o (not_found u id) (not_found-AllBacked u id))

  holds_key→eq : (o : Option StorageKey) (key : StorageKey) → holds_key o key ≡ true → o ≡ some key
  holds_key→eq none key h = absurd (ground arith)
  holds_key→eq (some k) key h = ap some (ground arith)

  -- A document that receives what was checked is backed.
  pub verified-Backed :
      (u id : ℕ) (key : StorageKey) (object : StoredObjectMetadata) (etag : Option Text)
      (current d : Document)
      → storage.head_object key ≡ ok (some object)
      → Passes config lower current object etag
      → uploading_key u id key d ≡ true
      → Backed (verified object.size (stored_type_of lower object) current d)
  verified-Backed u id key object etag current d exists passes up ready = record {
    key = key;
    object = object;
    has_key = holds_key→eq d.storage_key key (ground arith);
    exists = exists;
    has_size = refl;
    is_within = passes.limit;
    has_type = λ t h. (rw h refl, let types = passes.type in (rw h at types).1);
  }

  pub update_documents-AllBacked :
      (p : Document → Bool) (f : Document → Document)
      → ((d : Document) → p d ≡ true → Backed d → Backed (f d))
      → (w : World) → AllBacked w
      → AllBacked (update_documents p f w)
  update_documents-AllBacked p f new w old = update_many-AllBacked p f w.documents new old

  -- An update that writes another status than READY.
  pub update_unready :
      (p : Document → Bool) (f : Document → Document)
      → ((d : Document) → (f d).status ≢ DocumentStatus.ready)
      → (w : World) → AllBacked w
      → AllBacked (update_documents p f w)
  update_unready p f other w old =
      update_documents-AllBacked p f (λ d _ _ ready. absurd (other d ready)) w old
