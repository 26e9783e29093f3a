-- ===== src/Documents.antt =====
-- backend/src/documents/documents.service.ts and documents.errors.ts: the metadata of documents.
-- Other requests run while a method waits for the database; what they do in such a gap is the
-- argument `others` of the method.
pub mod FileName
pub mod FileChecks
pub mod Files
pub mod Owned
pub mod Isolated
pub mod Listing
mod Tests
use Prim.Native.String.{String}
use text.Mathlib.Text.{◌==◌ as str_eq}
use docuai.Base.{
  ℕ, zero, suc, ◌+◌, ◌-◌, ◌*◌, ◌/◌, Bool, true, false, not, ◌&&◌, ◌||◌, Option, none, some, List,
  [], ◌∷◌, ◌++◌, ltb, leb, ◌==◌, if◌then◌else◌, is_some, get_or_else, holds_id, take, drop,
}
use docuai.Table.{find_first, count_where, find_many, update_many, insert_row}
use docuai.Schema.{Document, DocumentStatus}
use docuai.Errors.{AppException, ErrorCode}
use docuai.World.{
  World, Action, ◌>>=◌, ◌>>◌, pure, throw, gets, or_throw, modify, throw_if, record_event,
  SecurityEventType,
}
use docuai.Folders

abbrev pub document_not_found : AppException
document_not_found = record { status = 404; code = ErrorCode.document_not_found }

-- `where: { id, userId, deletedAt: null }`
abbrev pub live : ℕ → ℕ → Document → Bool
live u id d = d.id == id && d.user_id == u && not (is_some d.deleted_at)

abbrev pub update_documents : (Document → Bool) → (Document → Document) → World → World
update_documents p f w = record w { documents = update_many p f w.documents }

pub not_found : ℕ → ℕ → Action AppException AppException
not_found u id = do
  foreign ← gets (λ w. count_where (λ d. d.id == id && not (d.user_id == u)) w.documents)
  if ltb 0 foreign then record_event SecurityEventType.document_access_denied u else pure tt
  pure document_not_found

unfoldable pub get_owned : ℕ → ℕ → Action AppException Document
get_owned u id = do
  document ← gets (λ w. find_first (live u id) w.documents)
  or_throw document (not_found u id)

-- `if (folderId) await this.foldersService.getOwned(…);`
pub check_folder : ℕ → Option ℕ → Action AppException (Unit {0})
check_folder u none = pure tt
check_folder u (some folder) = do found ← Folders.get_owned u folder; pure tt

abbrev empty_to_null : Option String → Option String
empty_to_null none = none
empty_to_null (some s) = if str_eq s "" then none else some s

pub record CreateDocumentDto : Type 0 where
  pub title : String
  pub description : Option String
  pub folder_id : Option ℕ

-- `id` and `now` are what the database draws for the new row.
abbrev pub new_document : ℕ → CreateDocumentDto → (id now : ℕ) → Document
new_document u dto id now = record {
  id = id;
  user_id = u;
  folder_id = dto.folder_id;
  title = dto.title;
  description = empty_to_null dto.description;
  status = DocumentStatus.draft;
  mime_type = none;
  file_size = none;
  page_count = none;
  storage_key = none;
  original_name = none;
  created_at = now;
  deleted_at = none;
}

pub create : ℕ → CreateDocumentDto → (id now : ℕ) → Action AppException Document
create u dto id now = do
  check_folder u dto.folder_id
  modify (λ w. record w { documents = insert_row (new_document u dto id now) w.documents })
  record_event SecurityEventType.document_created u
  pure (new_document u dto id now)

-- An absent field is `none`; `some none` is `null`.
pub record UpdateDocumentDto : Type 0 where
  pub title : Option String
  pub description : Option (Option String)
  pub folder_id : Option (Option ℕ)

abbrev pub is_empty_update : UpdateDocumentDto → Bool
is_empty_update dto =
    not (is_some dto.title) && not (is_some dto.description) && not (is_some dto.folder_id)

abbrev pub apply_update : UpdateDocumentDto → Document → Document
apply_update dto d = record d {
  title = get_or_else dto.title d.title;
  description = elim dto.description [ none ↦ d.description | some s ↦ empty_to_null s ];
  folder_id = get_or_else dto.folder_id d.folder_id;
}

-- The write of `update`, and the document that it returns.
write_update : ℕ → Document → UpdateDocumentDto → Action AppException Document
write_update u current dto = do
  count ← gets (λ w. count_where (live u current.id) w.documents)
  modify (update_documents (live u current.id) (apply_update dto))
  throw_if (not (count == 1)) document_not_found
  document ← get_owned u current.id
  record_event SecurityEventType.document_updated u
  pure document

pub update : ℕ → ℕ → UpdateDocumentDto → (others : World → World) → Action AppException Document
update u id dto others = do
  current ← get_owned u id
  check_folder u (get_or_else dto.folder_id none)
  modify others
  if is_empty_update dto then pure current else write_update u current dto

pub record DocumentDeletion : Type 0 where
  pub id : ℕ
  pub deleted_at : ℕ

abbrev pub soft_deleted : ℕ → Document → Document
soft_deleted now d = record d { deleted_at = some now; status = DocumentStatus.deleted }

pub remove : (u id now : ℕ) → Action AppException DocumentDeletion
remove u id now = do
  count ← gets (λ w. count_where (live u id) w.documents)
  modify (update_documents (live u id) (soft_deleted now))
  or_throw (if count == 1 then some tt else none) (not_found u id)
  record_event SecurityEventType.document_deleted u
  pure (record { id = id; deleted_at = now })
