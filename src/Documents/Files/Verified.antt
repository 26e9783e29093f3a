-- ===== src/Documents/Files/Verified.antt =====
-- What `completeUpload` checks of an uploaded object
-- (backend/src/documents/document-files.service.ts).
use docuai.Base.{
  ◌↔◌, same_text_refl, Option-cases, ◌⊎◌, same_text→eq, ◌≡◌, refl, ◌≤◌, true, false, Option, none,
  some, [], ◌∷◌, arith, Text, inl, inr, includes_text, is_empty,
}
use docuai.Schema.{Document}
use docuai.Storage.{StoredObjectMetadata}
use docuai.Documents.FileChecks.{
  stripped, FilesConfig, stored_type_of, upload_problems, holds_text, declared_size,
  differ_if_given,
}

module _ (config : FilesConfig) (lower : Text → Text) where
  -- The type that the storage reports, if any, is the declared one and allowed.
  abbrev pub TypeAgrees : Option Text → Option Text → Type 0
  TypeAgrees declared none = Unit
  TypeAgrees declared (some t) =
      (holds_text declared t ≡ true) × (includes_text config.allowed_mime_types t ≡ true)

  abbrev pub EtagAgrees : Option Text → Option Text → Type 0
  EtagAgrees (some a) (some b) = (a ≡ []) ⊎ ((b ≡ []) ⊎ (a ≡ b))
  EtagAgrees _ _ = Unit

  -- The object is as declared.
  pub record Passes (current : Document) (object : StoredObjectMetadata) (etag : Option Text)
      : Type 0 where
    pub size : object.size ≡ declared_size current
    pub limit : object.size ≤ config.max_file_size_bytes
    pub type : TypeAgrees current.mime_type (stored_type_of lower object)
    pub tag : EtagAgrees (stripped etag) object.etag

  differ→agree : (a b : Option Text) → differ_if_given a b ≡ false → EtagAgrees a b
  differ→agree none b e = tt
  differ→agree (some a) none e = tt
  differ→agree (some []) (some b) e = inl refl
  differ→agree (some (x ∷ a)) (some []) e = inr (inl refl)
  differ→agree (some (x ∷ a)) (some (y ∷ b)) e =
      inr (inr (same_text→eq (x ∷ a) (y ∷ b) (ground arith)))

  upload_problems_sound :
      (current : Document) (object : StoredObjectMetadata) (etag : Option Text)
      → is_empty (upload_problems config lower current object etag) ≡ true
      → Passes current object etag
  unfolding upload_problems
  upload_problems_sound current object etag e = record {
    size = ground arith;
    limit = ground arith;
    type = elim (Option-cases (stored_type_of lower object)) [
      | inl h ↦ rw h tt
      | inr (t, h) ↦ rw h (ground arith, ground arith)
    ];
    tag = differ→agree (stripped etag) object.etag (ground arith);
  }

  agree→differ : (a b : Option Text) → EtagAgrees a b → differ_if_given a b ≡ false
  agree→differ none b h = refl
  agree→differ (some a) none h = refl
  agree→differ (some a) (some b) h = elim h [
    | inl e ↦ rw e refl
    | inr (inl e) ↦ rw e (ground arith)
    | inr (inr e) ↦ rw (e, same_text_refl b) (ground arith)
  ]

  upload_problems_complete :
      (current : Document) (object : StoredObjectMetadata) (etag : Option Text)
      → Passes current object etag
      → is_empty (upload_problems config lower current object etag) ≡ true
  unfolding upload_problems
  upload_problems_complete current object etag p =
      let size = p.size in
      let limit = p.limit in
      let tag = agree→differ (stripped etag) object.etag p.tag in
      let type = p.type in
      elim (Option-cases (stored_type_of lower object)) [
        | inl h ↦ ground arith
        | inr (t, h) ↦ let (a, b) = rw h at type in ground arith
      ]

  pub upload_problems_iff :
      (current : Document) (object : StoredObjectMetadata) (etag : Option Text)
      → (is_empty (upload_problems config lower current object etag) ≡ true)
        ↔ Passes current object etag
  upload_problems_iff current object etag =
      (upload_problems_sound current object etag, upload_problems_complete current object etag)
