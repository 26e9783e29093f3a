-- ===== src/Documents/Listing/Covers.antt =====
-- The pages of DocumentsService.list (backend/src/documents/documents.service.ts) are the whole list.
use Prim.Native.String.{String}
use docuai.Base.{ℕ, Bool, List, [], Result, ok, err}
use docuai.Table.{find_many, count_where}
use docuai.Table.Paging.{total_pages, order_rows, page_of}
use docuai.Schema.{Document}
use docuai.Errors.{AppException}
use docuai.World.{World}
use docuai.Folders
use docuai.Documents.Listing.{
  DocumentSortField, SortOrder, ListDocumentsQuery, DocumentPage, listed,
}

abbrev pub items_of : Result AppException DocumentPage → List Document
items_of (ok page) = page.items
items_of (err e) = []

module _ (contains : String → String → Bool)
    (before : DocumentSortField → SortOrder → Document → Document → Bool) where
  -- What a listing answers when its folder is the user's.
  abbrev answer : (u : ℕ) → ListDocumentsQuery → List Document → DocumentPage
  answer u query ds = record {
    items = page_of query.page query.limit (
        order_rows (before query.sort query.order) (find_many (listed contains before u query) ds));
    page = query.page;
    limit = query.limit;
    total = count_where (listed contains before u query) ds;
    total_pages = total_pages (count_where (listed contains before u query) ds) query.limit;
  }
