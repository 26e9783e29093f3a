-- ===== src/Storage/S3/Contract.antt =====
-- What backend/src/storage/s3/s3-storage.provider.ts promises: through it the storage is a map from
-- keys to objects that may be unavailable. `Documented` is what the S3 API says of the client's calls.
use docuai.Base.{
  ℕ, ◌≡◌, true, false, Option, none, some, ◌∷◌, [], ◌++◌, Text, ◌⊎◌, ◌≢◌, Result, ok, err,
}
use docuai.Schema.{StorageKey}
use docuai.Errors.{AppException}
use docuai.Storage.{StoredObjectMetadata, ObjectBody, StoredObjectStream, storage_exception}
use docuai.Storage.S3.{S3LikeError, S3Client, HeadObjectOutput, GetObjectOutput, is_not_found}

pub record StoredObject : Type 0 where
  pub body : ObjectBody
  pub size : ℕ
  pub content_type : Text
  pub etag : Text
  pub last_modified : ℕ

-- The answers of the API for an object. The ETag stands between quotes.
abbrev pub head_of : StoredObject → HeadObjectOutput
head_of o = record {
  content_length = some o.size;
  content_type = some o.content_type;
  etag = some (b'"' ∷ o.etag ++ b'"' ∷ []);
  last_modified = some o.last_modified;
}

abbrev pub get_of : StoredObject → GetObjectOutput
get_of o = record {
  body = some o.body;
  content_length = some o.size;
  content_type = some o.content_type;
}

-- What the callers of the provider should see of an object.
abbrev pub metadata_of : StoredObject → StoredObjectMetadata
metadata_of o = record {
  size = o.size;
  content_type = some o.content_type;
  etag = some o.etag;
  last_modified = some o.last_modified;
}

abbrev pub stream_of : StoredObject → StoredObjectStream
stream_of o = record { body = o.body; size = some o.size; content_type = some o.content_type }

abbrev pub mapped : {A B : Type 0} → (A → B) → Option A → Option B
mapped f none = none
mapped f (some a) = some (f a)

abbrev pub Missing : {A : Type 0} → Result S3LikeError A → Type 0
Missing r = (e : S3LikeError) × (r ≡ err e) × (is_not_found e ≡ true)

abbrev pub Unavailable : {A : Type 0} → Result S3LikeError A → Type 0
Unavailable r = (e : S3LikeError) × (r ≡ err e) × (is_not_found e ≡ false)

-- An answer of the API about an object, or about its absence.
abbrev pub Answers : {A : Type 0} → Result S3LikeError A → Option A → Type 0
Answers r none = Missing r ⊎ Unavailable r
Answers r (some a) = (r ≡ ok a) ⊎ Unavailable r

-- An answer of the provider.
abbrev pub Promised : {A : Type 0} → Result AppException A → A → Type 0
Promised r a = (r ≡ ok a) ⊎ (r ≡ err storage_exception)

module _ {S : Type 0} (client : S3Client S) where
  -- `objects s` is what the bucket holds.
  pub record Documented (objects : S → StorageKey → Option StoredObject) : Type 0 where
    pub heads :
        (k : StorageKey) (s : S)
        → Answers (client.send_head_object k s) (mapped head_of (objects s k))
    pub gets :
        (k : StorageKey) (s : S)
        → Answers (client.send_get_object k s) (mapped get_of (objects s k))
    pub deletes :
        (k : StorageKey) (s : S)
        → (objects (client.send_delete_object k s).1 k ≡ none)
          ⊎ Unavailable (client.send_delete_object k s).0
    pub keeps :
        (k j : StorageKey) (s : S)
        → j ≢ k
        → objects (client.send_delete_object k s).1 j ≡ objects s j
