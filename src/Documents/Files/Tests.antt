-- ===== src/Documents/Files/Tests.antt =====
-- Runs of DocumentFilesService (backend/src/documents/document-files.service.ts) on a small world.
use docuai.Documents.FileChecks.{FilesConfig}
use docuai.Documents.Files.{complete_upload}
use docuai.Base.{none, some, [], ◌∷◌, Text, ok, ◌==◌, if◌then◌else◌}
use docuai.Schema.{Document, DocumentStatus, StorageKey}
use docuai.Storage.{StorageProvider, UrlMethod, StoredObjectMetadata}
use docuai.World.{World}
use docuai.Documents.FileName.{pdf_type}

abbrev config : FilesConfig
config = record {
  allowed_mime_types = pdf_type ∷ [];
  max_file_size_bytes = 1000;
  upload_url_ttl_seconds = 60;
  download_url_ttl_seconds = 60;
}

abbrev same : Text → Text
same s = s

abbrev key : StorageKey
key = record { owner = 7; document = 1; random = 5 }

abbrev object : StoredObjectMetadata
object = record { size = 200; content_type = some pdf_type; etag = none; last_modified = none }

abbrev storage : StorageProvider
storage = record {
  create_upload_url = λ r. ok (record {
    url = "put";
    method = UrlMethod.put;
    expires_at = 0;
    expires_in_seconds = r.expires_in_seconds;
  });
  create_download_url = λ r. ok (record {
    url = "get";
    method = UrlMethod.get;
    expires_at = 0;
    expires_in_seconds = r.expires_in_seconds;
  });
  head_object = λ k. ok (if k.random == 5 then some object else none);
}

abbrev uploading : Document
uploading = record {
  id = 1;
  user_id = 7;
  folder_id = none;
  title = "Invoice";
  description = none;
  status = DocumentStatus.uploading;
  mime_type = some pdf_type;
  file_size = some 200;
  page_count = none;
  storage_key = some key;
  original_name = none;
  created_at = 3;
  deleted_at = none;
}

abbrev before : World
before = record {
  folders = [];
  documents = uploading ∷ [];
  jobs = [];
  pages = [];
  users = [];
  tokens = [];
  removed_objects = [];
  events = [];
}

abbrev after : World
after = (complete_upload config same same storage 7 1 none (λ w. w) before).1
