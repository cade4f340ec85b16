-- ===== src/Library/ItemStatus.antt =====
-- The status of a book in library: domain/services/library-status.ts and the states of
-- domain/value-objects/library-item-status.vo.ts. The percentage of progress is computed in
-- floating point and is left out; the ratio of what remains is a comparison of products.
use voxkivre_backend.Prelude.{
  ℕ, ◌+◌, ◌-◌, ◌*◌, ◌==◌, ltb, Bool, false, Option, none, some, if◌then◌else◌,
}
use voxkivre_backend.Conversion.Status.{ConversionStatus}
use voxkivre_backend.Library.Positions.{ReadingPosition}

pub data LibraryItemStatus : Type 0 where
  processing failed not_converted ready in_progress finished : LibraryItemStatus

pub data DocumentState : Type 0 where
  processing failed text_ready : DocumentState

pub data ConversionState : Type 0 where
  processing ready failed : ConversionState

pub record ConversionProgress : Type 0 where
  pub state : ConversionState
  pub playable_word_count : ℕ

-- The adapter's reading of the status of a conversion.
unfoldable pub state_of : ConversionStatus → ConversionState
state_of ConversionStatus.queued = ConversionState.processing
state_of ConversionStatus.preparing = ConversionState.processing
state_of ConversionStatus.synthesizing = ConversionState.processing
state_of ConversionStatus.synthesized = ConversionState.processing
state_of ConversionStatus.ready = ConversionState.ready
state_of ConversionStatus.failed = ConversionState.failed

-- Fewer than 2 in 100 words remain; a position beyond the end leaves fewer than none.
abbrev pub nearly_done : (word_index playable : ℕ) → Bool
nearly_done word_index playable =
    if playable == 0 then false else ltb (50 * (playable - (word_index + 1))) playable

abbrev pub is_finished : (word_index : ℕ) → ConversionState → (playable : ℕ) → Bool
is_finished word_index ConversionState.processing playable = false
is_finished word_index ConversionState.failed playable = false
is_finished word_index ConversionState.ready playable = nearly_done word_index playable

abbrev pub unread_status : ConversionState → LibraryItemStatus
unread_status ConversionState.failed = LibraryItemStatus.failed
unread_status ConversionState.ready = LibraryItemStatus.ready
unread_status ConversionState.processing = LibraryItemStatus.processing

unfoldable pub derive_library_status :
    DocumentState → Option ConversionProgress → Option ReadingPosition → LibraryItemStatus
derive_library_status DocumentState.processing conversion position = LibraryItemStatus.processing
derive_library_status DocumentState.failed conversion position = LibraryItemStatus.failed
derive_library_status DocumentState.text_ready none position = LibraryItemStatus.not_converted
derive_library_status DocumentState.text_ready (some c) (some position) =
    if is_finished position.word_index c.state c.playable_word_count
    then LibraryItemStatus.finished
    else LibraryItemStatus.in_progress
derive_library_status DocumentState.text_ready (some c) none = unread_status c.state
