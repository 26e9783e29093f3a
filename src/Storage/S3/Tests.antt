-- ===== src/Storage/S3/Tests.antt =====
-- The theorems on the provider (backend/src/storage/s3/s3-storage.provider.ts) at a bucket whose state
-- is whether its one object exists.
use docuai.Base.{not, ◌&&◌, Bool, false, Option, none, some, [], ◌∷◌, ok, err, if◌then◌else◌}
use docuai.Documents.FileChecks.{same_key}
use docuai.Schema.{StorageKey}
use docuai.Storage.S3.{S3Client, S3LikeError}
use docuai.Storage.S3.Contract.{StoredObject, head_of, get_of}

abbrev sample_key : StorageKey
sample_key = record { owner = 7; document = 1; random = 5 }

abbrev sample_object : StoredObject
sample_object = record {
  body = record { chunks = 3 ∷ []; breaks = false };
  size = 3;
  content_type = b'a' ∷ [];
  etag = b'x' ∷ [];
  last_modified = 9;
}

abbrev missing : S3LikeError
missing = record { name = some "NoSuchKey"; http_status_code = some 404 }

abbrev client : S3Client Bool
client = record {
  send_head_bucket = λ s. err missing;
  send_create_bucket = λ s. (ok tt, s);
  send_head_object =
      λ k s. if same_key k sample_key && s then ok (head_of sample_object) else err missing;
  send_get_object =
      λ k s. if same_key k sample_key && s then ok (get_of sample_object) else err missing;
  send_delete_object = λ k s. (ok tt, not (same_key k sample_key) && s);
  get_signed_url = λ command t headers. ok "signed";
}

abbrev objects : Bool → StorageKey → Option StoredObject
objects s k = if same_key k sample_key && s then some sample_object else none
