-- ===== src/Documents/Listing.antt =====
-- DocumentsService.list (backend/src/documents/documents.service.ts). The comparisons of the database
-- are parameters: `contains` for `contains` with `mode: 'insensitive'`, and `before` for the order of a
-- column and a direction, with the id as tie-breaker.
pub mod Covers
mod Tests
use Prim.Native.String.{String}
use text.Mathlib.Text.{◌==◌ as string_eq}
use docuai.Base.{
  ℕ, Bool, true, false, not, ◌&&◌, ◌||◌, Option, none, some, List, if◌then◌else◌, is_some,
  get_or_else, ◌==◌,
}
use docuai.Table.{count_where, find_many}
use docuai.Table.Paging.{page_of, order_rows, total_pages}
use docuai.Schema.{Document, DocumentStatus}
use docuai.Errors.{AppException}
use docuai.World.{World, Action, ◌>>=◌, ◌>>◌, pure, gets}
use docuai.Documents.{check_folder}

pub data DocumentSortField : Type 0 where
  created_at updated_at title file_size : DocumentSortField

pub data SortOrder : Type 0 where
  asc desc : SortOrder

-- An absent field is `none`; `some none` is `null`.
pub record ListDocumentsQuery : Type 0 where
  pub page : ℕ
  pub limit : ℕ
  pub folder_id : Option (Option ℕ)
  pub status : Option DocumentStatus
  pub search : Option String
  pub sort : DocumentSortField
  pub order : SortOrder

pub record DocumentPage : Type 0 where
  pub items : List Document
  pub page : ℕ
  pub limit : ℕ
  pub total : ℕ
  pub total_pages : ℕ

abbrev same_status : DocumentStatus → DocumentStatus → Bool
same_status DocumentStatus.draft DocumentStatus.draft = true
same_status DocumentStatus.uploading DocumentStatus.uploading = true
same_status DocumentStatus.ready DocumentStatus.ready = true
same_status DocumentStatus.processing DocumentStatus.processing = true
same_status DocumentStatus.failed DocumentStatus.failed = true
same_status DocumentStatus.deleted DocumentStatus.deleted = true
same_status _ _ = false

abbrev same_folder : Option ℕ → Option ℕ → Bool
same_folder none none = true
same_folder (some a) (some b) = a == b
same_folder _ _ = false

abbrev in_folder : Option (Option ℕ) → Document → Bool
in_folder none d = true
in_folder (some folder) d = same_folder d.folder_id folder

abbrev of_status : Option DocumentStatus → Document → Bool
of_status none d = true
of_status (some s) d = same_status d.status s

module _ (contains : String → String → Bool)
    (before : DocumentSortField → SortOrder → Document → Document → Bool) where
  -- `if (query.search) where.OR = …`
  pub matches : Option String → Document → Bool
  matches none d = true
  matches (some s) d =
      if string_eq s ""
      then true
      else contains d.title s || elim d.description [ none ↦ false | some t ↦ contains t s ]

  pub listed : (u : ℕ) → ListDocumentsQuery → Document → Bool
  unfolding matches
  listed u query d =
      d.user_id == u
      && not (is_some d.deleted_at)
      && in_folder query.folder_id d
      && of_status query.status d
      && matches query.search d

  abbrev pub listed_rows : (u : ℕ) → ListDocumentsQuery → World → List Document
  listed_rows u query w =
      order_rows (before query.sort query.order) (find_many (listed u query) w.documents)

  pub list : (u : ℕ) → ListDocumentsQuery → Action AppException DocumentPage
  list u query = do
    check_folder u (get_or_else query.folder_id none)
    total ← gets (λ w. count_where (listed u query) w.documents)
    rows ← gets (listed_rows u query)
    pure (record {
      items = page_of query.page query.limit rows;
      page = query.page;
      limit = query.limit;
      total = total;
      total_pages = total_pages total query.limit;
    })
