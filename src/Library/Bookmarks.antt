-- ===== src/Library/Bookmarks.antt =====
-- The bookmarks of library: infrastructure/persistence/bookmark.drizzle-repository.ts, and the use
-- cases that put and delete one. The document module's answers and the clock are arguments; the
-- deletion of a document, which takes its bookmarks with it, is not followed.
pub mod Listing
use voxkivre_backend.Prelude.{
  ℕ, ◌+◌, ◌==◌, ltb, leb, ◌&&◌, Bool, true, false, List, [], ◌∷◌, length, Option, none, some, find,
  select, update, exists, Result, ok, err, if◌then◌else◌,
}
use voxkivre_backend.Shared.IdempotencyKey.{trim}
use voxkivre_backend.Shared.Text.{Text}
use voxkivre_backend.Library.Positions.{clock_skew_tolerance_ms}
use voxkivre_backend.Library.ItemStatus.{DocumentState}
use voxkivre_backend.Library.Anchor.{page_words, excerpt_at, locate_anchor}

abbrev pub max_bookmarks_per_document : ℕ
max_bookmarks_per_document = 500

abbrev pub max_bookmark_note_length : ℕ
max_bookmark_note_length = 2000

pub record Bookmark : Type 0 where
  pub id : ℕ
  pub owner_id : ℕ
  pub document_id : ℕ
  pub page_number : ℕ
  pub word_index : ℕ
  pub excerpt : Text
  pub note : Text
  pub created_at : ℕ
  pub updated_at : ℕ
  pub deleted_at : Option ℕ

pub data BookmarkChange : Type 0 where
  edit : (note : Text) (at : ℕ) → BookmarkChange
  delete : (at : ℕ) → BookmarkChange

pub record BookmarkView : Type 0 where
  pub id : ℕ
  pub page_number : ℕ
  pub word_index : ℕ
  pub excerpt : Text
  pub note : Text
  pub needs_review : Bool
  pub created_at : ℕ
  pub updated_at : ℕ
  pub deleted_at : Option ℕ

abbrev pub bookmark_key : ℕ → Bookmark → Bool
bookmark_key id row = row.id == id

unfoldable pub find_bookmark : (id : ℕ) → List Bookmark → Option Bookmark
find_bookmark id rows = find (bookmark_key id) rows

abbrev pub is_active : Option ℕ → Bool
is_active none = true
is_active (some at) = false

abbrev pub active_of : (document owner : ℕ) → Bookmark → Bool
active_of document owner row =
    row.document_id == document && (row.owner_id == owner && is_active row.deleted_at)

unfoldable pub count_active : (document owner : ℕ) → List Bookmark → ℕ
count_active document owner rows = length (select (active_of document owner) rows)

-- INSERT … ON CONFLICT DO NOTHING: whether a row was inserted.
unfoldable pub insert_bookmark : Bookmark → List Bookmark → Bool × List Bookmark
insert_bookmark bookmark rows =
    if exists (bookmark_key bookmark.id) rows then (false, rows) else (true, bookmark ∷ rows)

abbrev pub at_of : BookmarkChange → ℕ
at_of (edit note at) = at
at_of (delete at) = at

abbrev pub changed : BookmarkChange → Bookmark → Bookmark
changed (edit note at) row = record row { note = note; updated_at = at; deleted_at = none }
changed (delete at) row = record row { updated_at = at; deleted_at = some at }

abbrev pub belongs : (owner document : ℕ) → Bookmark → Bool
belongs owner document row = row.owner_id == owner && row.document_id == document

abbrev pub is_changed : (id owner document : ℕ) → BookmarkChange → Bookmark → Bool
is_changed id owner document change row =
    bookmark_key id row && (belongs owner document row && ltb row.updated_at (at_of change))

abbrev pub if_belongs : (owner document : ℕ) → Option Bookmark → Option Bookmark
if_belongs owner document none = none
if_belongs owner document (some row) = if belongs owner document row then some row else none

-- The row that was changed, or else the one that stays.
abbrev pub row_kept :
    (id owner document : ℕ) → BookmarkChange → Option Bookmark → List Bookmark → Option Bookmark
row_kept id owner document change (some row) rows = some (changed change row)
row_kept id owner document change none rows = if_belongs owner document (find_bookmark id rows)

unfoldable pub apply_change :
    (id owner document : ℕ) → BookmarkChange → List Bookmark → Option Bookmark × List Bookmark
unfolding find_bookmark
apply_change id owner document change rows = (
  row_kept id owner document change (find (is_changed id owner document change) rows) rows,
  update (is_changed id owner document change) (changed change) rows,
)

-- The text of a page of the document, and how words are compared.
pub record Reading : Type 0 where
  pub page_text : ℕ → Option Text
  pub normalized : Text → Text

abbrev pub text_or_empty : Option Text → Text
text_or_empty none = []
text_or_empty (some text) = text

unfoldable pub view_of : (normalized : Text → Text) → Bookmark → Option Text → BookmarkView
view_of normalized bookmark page_text =
    let anchor =
      locate_anchor normalized (page_words (text_or_empty page_text)) bookmark.word_index
        bookmark.excerpt in
    record {
      id = bookmark.id;
      page_number = bookmark.page_number;
      word_index = anchor.word_index;
      excerpt = bookmark.excerpt;
      note = bookmark.note;
      needs_review = anchor.needs_review;
      created_at = bookmark.created_at;
      updated_at = bookmark.updated_at;
      deleted_at = bookmark.deleted_at;
    }

pub record PutBookmarkInput : Type 0 where
  pub owner_id : ℕ
  pub document_id : ℕ
  pub bookmark_id : ℕ
  pub page_number : ℕ
  pub word_index : ℕ
  pub note : Text
  pub updated_at : ℕ

-- What library knows of a document.
pub record LibraryDocument : Type 0 where
  pub document_id : ℕ
  pub state : DocumentState

pub data BookmarkError : Type 0 where
  document_not_found : (document : ℕ) → BookmarkError
  bookmark_text_not_ready : (document : ℕ) → BookmarkError
  invalid_bookmark_note : (length max_length : ℕ) → BookmarkError
  invalid_bookmark_timestamp : (at : ℕ) → BookmarkError
  bookmark_id_conflict : (bookmark : ℕ) → BookmarkError
  invalid_bookmark_anchor : (page_number word_index : ℕ) (word_count : Option ℕ) → BookmarkError
  bookmarks_limit_conflict : (max_bookmarks : ℕ) → BookmarkError

pub record PutBookmarkOutput : Type 0 where
  pub bookmark : BookmarkView
  pub created : Bool

abbrev pub edited :
    Reading
    → (bookmark_id : ℕ) → Option Bookmark × List Bookmark
    → Result PutBookmarkOutput BookmarkError × List Bookmark
edited reading bookmark_id (none, rows) = (err (bookmark_id_conflict bookmark_id), rows)
edited reading bookmark_id (some row, rows) = (
  ok (record {
    bookmark = view_of reading.normalized row (reading.page_text row.page_number);
    created = false;
  }),
  rows,
)

unfoldable pub edit_bookmark :
    Reading
    → LibraryDocument
    → PutBookmarkInput
    → (note : Text) → List Bookmark
    → Result PutBookmarkOutput BookmarkError × List Bookmark
edit_bookmark reading document input note rows = edited reading input.bookmark_id (
    apply_change input.bookmark_id input.owner_id document.document_id (edit note input.updated_at)
      rows)

abbrev pub bookmark_for :
    LibraryDocument → PutBookmarkInput → (note excerpt : Text) → (now : ℕ) → Bookmark
bookmark_for document input note excerpt now = record {
  id = input.bookmark_id;
  owner_id = input.owner_id;
  document_id = document.document_id;
  page_number = input.page_number;
  word_index = input.word_index;
  excerpt = excerpt;
  note = note;
  created_at = now;
  updated_at = input.updated_at;
  deleted_at = none;
}

-- A request that was sent twice may have inserted the row: then it is edited.
abbrev pub created_or_edited :
    Reading
    → LibraryDocument
    → PutBookmarkInput
    → Bookmark
    → Bool × List Bookmark
    → Result PutBookmarkOutput BookmarkError × List Bookmark
created_or_edited reading document input bookmark (true, rows) = (
  ok (record {
    bookmark = view_of reading.normalized bookmark (reading.page_text input.page_number);
    created = true;
  }),
  rows,
)
created_or_edited reading document input bookmark (false, rows) =
    edit_bookmark reading document input bookmark.note rows

abbrev pub create_on :
    Reading
    → LibraryDocument
    → PutBookmarkInput
    → (note : Text) → (now : ℕ) → Option Text
    → List Bookmark
    → Result PutBookmarkOutput BookmarkError × List Bookmark
create_on reading document input note now none rows =
    (err (invalid_bookmark_anchor input.page_number input.word_index none), rows)
create_on reading document input note now (some text) rows =
    let words = page_words text in
    if leb (length words) input.word_index
    then (
      err (invalid_bookmark_anchor input.page_number input.word_index (some (length words))),
      rows,
    )
    else if leb max_bookmarks_per_document (count_active document.document_id input.owner_id rows)
    then (err (bookmarks_limit_conflict max_bookmarks_per_document), rows)
    else let bookmark = bookmark_for document input note (excerpt_at words input.word_index) now in
      created_or_edited reading document input bookmark (insert_bookmark bookmark rows)

abbrev pub edit_or_create :
    Reading
    → LibraryDocument
    → PutBookmarkInput
    → (note : Text) → (now : ℕ) → Option Bookmark
    → List Bookmark
    → Result PutBookmarkOutput BookmarkError × List Bookmark
edit_or_create reading document input note now none rows =
    create_on reading document input note now (reading.page_text input.page_number) rows
edit_or_create reading document input note now (some existing) rows =
    if belongs input.owner_id input.document_id existing
    then edit_bookmark reading document input note rows
    else (err (bookmark_id_conflict input.bookmark_id), rows)

abbrev pub put_checked :
    Reading
    → LibraryDocument
    → PutBookmarkInput
    → (note : Text) → (now : ℕ) → List Bookmark
    → Result PutBookmarkOutput BookmarkError × List Bookmark
put_checked reading document input note now rows =
    if ltb max_bookmark_note_length (length note)
    then (err (invalid_bookmark_note (length note) max_bookmark_note_length), rows)
    else if ltb (now + clock_skew_tolerance_ms) input.updated_at
    then (err (invalid_bookmark_timestamp input.updated_at), rows)
    else edit_or_create reading document input note now (find_bookmark input.bookmark_id rows) rows

abbrev pub put_in :
    Reading
    → DocumentState
    → LibraryDocument
    → PutBookmarkInput
    → (now : ℕ) → List Bookmark
    → Result PutBookmarkOutput BookmarkError × List Bookmark
put_in reading DocumentState.processing document input now rows =
    (err (bookmark_text_not_ready document.document_id), rows)
put_in reading DocumentState.failed document input now rows =
    (err (bookmark_text_not_ready document.document_id), rows)
put_in reading DocumentState.text_ready document input now rows =
    put_checked reading document input (trim input.note) now rows

unfoldable pub put_bookmark :
    Reading
    → Option LibraryDocument
    → PutBookmarkInput
    → (now : ℕ) → List Bookmark
    → Result PutBookmarkOutput BookmarkError × List Bookmark
put_bookmark reading none input now rows = (err (document_not_found input.document_id), rows)
put_bookmark reading (some document) input now rows =
    put_in reading document.state document input now rows

unfoldable pub delete_bookmark :
    Option LibraryDocument
    → (owner document bookmark deleted_at now : ℕ) → List Bookmark
    → Result (Unit {0}) BookmarkError × List Bookmark
delete_bookmark none owner document bookmark deleted_at now rows =
    (err (document_not_found document), rows)
delete_bookmark (some found) owner document bookmark deleted_at now rows =
    if ltb (now + clock_skew_tolerance_ms) deleted_at
    then (err (invalid_bookmark_timestamp deleted_at), rows)
    else (ok tt, (apply_change bookmark owner found.document_id (delete deleted_at) rows).1)
