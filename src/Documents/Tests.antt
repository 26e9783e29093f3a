-- ===== src/Documents/Tests.antt =====
-- The theorem on the requests to DocumentsService (backend/src/documents/documents.service.ts) at a
-- concrete input.
use docuai.Base.{ℕ, refl, none, some, [], ◌∷◌, arith}
use docuai.Schema.{Document, DocumentStatus}
use docuai.World.{World}
use docuai.World.Rows.{SameRows}
use docuai.Documents.Isolated.{DocumentRequest, updates, after_request, after_request-SameRows}

abbrev document : (id user_id : ℕ) → Document
document id user_id = record {
  id = id;
  user_id = user_id;
  folder_id = none;
  title = "Invoice";
  description = none;
  status = DocumentStatus.draft;
  mime_type = none;
  file_size = none;
  page_count = none;
  storage_key = none;
  original_name = none;
  created_at = 3;
  deleted_at = none;
}

abbrev shared : World
shared = record {
  folders = [];
  documents = document 1 7 ∷ document 2 8 ∷ [];
  jobs = [];
  pages = [];
  users = [];
  tokens = [];
  removed_objects = [];
  events = [];
}

-- User 7 tries to rename a document of user 8.
abbrev rename : DocumentRequest
rename = updates 2 (record { title = some "Mine"; description = none; folder_id = none })

after_request-SameRows_example : SameRows 8 shared (after_request 7 (λ w. w) rename shared)
after_request-SameRows_example =
    after_request-SameRows 7 8 (λ w. w) rename shared (omega arith) (λ x. (refl, refl))
