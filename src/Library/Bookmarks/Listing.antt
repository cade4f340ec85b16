-- ===== src/Library/Bookmarks/Listing.antt =====
-- library/application/use-cases/list-bookmarks.use-case.ts, with the read of the repository.
use voxkivre_backend.Prelude.{ℕ, List, map, select, Option, none, some, Result, ok, err}
use voxkivre_backend.Conversion.Store.Lists.{sort_by}
use voxkivre_backend.Library.ItemStatus.{DocumentState}
use voxkivre_backend.Library.Bookmarks.{
  Bookmark, BookmarkView, BookmarkError, document_not_found, bookmark_text_not_ready,
  LibraryDocument, Reading, active_of, view_of,
}

-- ORDER BY page, word, creation: stable sorts, the last key first.
unfoldable pub list_active_bookmarks : (document owner : ℕ) → List Bookmark → List Bookmark
list_active_bookmarks document owner rows =
    sort_by (λ (b : Bookmark). b.page_number)
      (sort_by (λ (b : Bookmark). b.word_index)
        (sort_by (λ (b : Bookmark). b.created_at) (select (active_of document owner) rows)))

abbrev pub list_in :
    Reading
    → DocumentState
    → LibraryDocument
    → (owner : ℕ) → List Bookmark
    → Result (List BookmarkView) BookmarkError
list_in reading DocumentState.processing document owner rows =
    err (bookmark_text_not_ready document.document_id)
list_in reading DocumentState.failed document owner rows =
    err (bookmark_text_not_ready document.document_id)
list_in reading DocumentState.text_ready document owner rows = ok (
    map (λ (b : Bookmark). view_of reading.normalized b (reading.page_text b.page_number))
      (list_active_bookmarks document.document_id owner rows))

unfoldable pub list_bookmarks :
    Reading
    → Option LibraryDocument
    → (owner document : ℕ) → List Bookmark
    → Result (List BookmarkView) BookmarkError
unfolding list_active_bookmarks
list_bookmarks reading none owner document rows = err (document_not_found document)
list_bookmarks reading (some found) owner document rows =
    list_in reading found.state found owner rows
