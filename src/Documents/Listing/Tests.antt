-- ===== src/Documents/Listing/Tests.antt =====
-- The theorem on the listing of documents (backend/src/documents/documents.service.ts) at a concrete
-- input.
use Prim.Native.String.{String}
use text.Mathlib.Text.{◌==◌ as str_eq}
use docuai.Base.{Bool, leb, ℕ, none, some, [], ◌∷◌}
use docuai.Schema.{Document, DocumentStatus}
use docuai.Documents.Listing.{DocumentSortField, SortOrder, ListDocumentsQuery, DocumentPage}
use docuai.World.{World}

abbrev document : (id user_id : ℕ) → Document
document id user_id = record {
  id = id;
  user_id = user_id;
  folder_id = none;
  title = "Invoice";
  description = none;
  status = DocumentStatus.draft;
  mime_type = none;
  file_size = none;
  page_count = none;
  storage_key = none;
  original_name = none;
  created_at = 3;
  deleted_at = none;
}

abbrev contains : String → String → Bool
contains title s = str_eq title s

abbrev before : DocumentSortField → SortOrder → Document → Document → Bool
before field order d e = leb e.id d.id

abbrev query : ListDocumentsQuery
query = record {
  page = 1;
  limit = 2;
  folder_id = some none;
  status = none;
  search = some "Invoice";
  sort = DocumentSortField.created_at;
  order = SortOrder.desc;
}

-- Three documents of user 7 on two pages, and one of user 8.
abbrev library : World
library = record {
  folders = [];
  jobs = [];
  pages = [];
  users = [];
  tokens = [];
  removed_objects = [];
  events = [];
  documents = document 1 7 ∷ document 2 8 ∷ document 3 7 ∷ document 4 7 ∷ [];
}

abbrev first_page : DocumentPage
first_page = record {
  items = document 4 7 ∷ document 3 7 ∷ [];
  page = 1;
  limit = 2;
  total = 3;
  total_pages = 2;
}
