-- ===== src/Conversion/Overview.antt =====
-- conversion/domain/services/conversion-overview.ts and the service that other modules read,
-- application/services/conversion-catalog.service.ts.
pub mod ByDocument
use voxkivre_backend.Prelude.{
  ℕ, zero, suc, ◌+◌, ◌==◌, ltb, ◌&&◌, not, Bool, true, false, List, [], ◌∷◌, ◌++◌, length, select,
  exists, find, Option, none, some, if◌then◌else◌,
}
use voxkivre_backend.Shared.Text.{Text}
use voxkivre_backend.Conversion.Files.{Names, part_file_keys, manifest_key}
use voxkivre_backend.Conversion.Status.{
  ConversionStatus, ready, failed, same_status, ConversionFailureReason, Conversion, ConversionPart,
  AssembledPart,
}
use voxkivre_backend.Conversion.Store.{World, is_set}
use voxkivre_backend.Conversion.Store.Reads.{or_else, find_by_id_for_owner}
use voxkivre_backend.Conversion.Store.Lists.{sort_by, list_parts, list_for_document, list_for_owner}

-- A stable sort by descending time of creation.
abbrev pub insert_newest : Conversion → List Conversion → List Conversion
insert_newest x [] = x ∷ []
insert_newest x (y ∷ ys) =
    if ltb x.created_at y.created_at then y ∷ insert_newest x ys else x ∷ y ∷ ys

unfoldable pub newest_first : List Conversion → List Conversion
newest_first [] = []
newest_first (x ∷ xs) = insert_newest x (newest_first xs)

abbrev pub first_conversion : List Conversion → Option Conversion
first_conversion [] = none
first_conversion (c ∷ cs) = some c

abbrev pub or_option : Option Conversion → Option Conversion → Option Conversion
or_option (some c) other = some c
or_option none other = other

unfoldable pub select_library_conversion : List Conversion → Option Conversion
unfolding newest_first
select_library_conversion candidates =
    let newest = newest_first candidates in
    or_option (find (λ c. not (same_status c.status failed)) newest) (first_conversion newest)

pub record PlayableExtent : Type 0 where
  pub parts_ready : ℕ
  pub word_count : ℕ
  pub duration_ms : ℕ

-- `break` at the first part that is missing or not assembled.
abbrev pub prefix_step :
    Bool
    → Option AssembledPart
    → ConversionPart
    → (word_count duration_ms : ℕ) → (ℕ → ℕ → ℕ × ℕ)
    → ℕ × ℕ
prefix_step false assembled part word_count duration_ms go = (word_count, duration_ms)
prefix_step true none part word_count duration_ms go = (word_count, duration_ms)
prefix_step true (some assembled) part word_count duration_ms go =
    go (part.first_word_index + assembled.word_count) (duration_ms + assembled.duration_ms)

unfoldable pub playable_prefix :
    (position : ℕ) → List ConversionPart → (word_count duration_ms : ℕ) → ℕ × ℕ
playable_prefix position [] word_count duration_ms = (word_count, duration_ms)
playable_prefix position (part ∷ parts) word_count duration_ms =
    prefix_step (part.index == position) part.assembled part word_count duration_ms
      (playable_prefix (position + 1) parts)

unfoldable pub playable_extent : List ConversionPart → PlayableExtent
unfolding playable_prefix
playable_extent parts =
    let ordered = sort_by (λ (part : ConversionPart). part.index) parts in
    let (words, ms) = playable_prefix 0 ordered 0 0 in
    record {
      parts_ready = length (select (λ (part : ConversionPart). is_set part.assembled) ordered);
      word_count = words;
      duration_ms = ms;
    }

unfoldable pub part_keys_from : Names → Conversion → (count index : ℕ) → List Text
part_keys_from names c zero index = []
part_keys_from names c (suc count) index =
    let keys = part_file_keys names c.owner_id c.id index in
    keys.audio ∷ keys.vtt ∷ part_keys_from names c count (index + 1)

unfoldable pub conversion_file_keys : Names → Conversion → List Text
unfolding part_keys_from
conversion_file_keys names c =
    manifest_key names c.owner_id c.id ∷ part_keys_from names c (or_else c.part_count 0) 0

unfoldable pub is_conversion_running : Conversion → Bool
is_conversion_running c = not (same_status c.status ready) && not (same_status c.status failed)

pub record ConversionOverview : Type 0 where
  pub conversion_id : ℕ
  pub document_id : ℕ
  pub voice_id : Text
  pub status : ConversionStatus
  pub failure_reason : Option ConversionFailureReason
  pub part_count : Option ℕ
  pub parts_ready : ℕ
  pub playable_word_count : ℕ
  pub playable_duration_ms : ℕ
  pub created_at : ℕ
  pub completed_at : Option ℕ

unfoldable pub to_overview : Conversion → List ConversionPart → ConversionOverview
unfolding playable_extent
to_overview c parts =
    let playable = playable_extent parts in
    record {
      conversion_id = c.id;
      document_id = c.document_id;
      voice_id = c.voice_id;
      status = c.status;
      failure_reason = c.failure_reason;
      part_count = c.part_count;
      parts_ready = playable.parts_ready;
      playable_word_count = playable.word_count;
      playable_duration_ms = playable.duration_ms;
      created_at = c.created_at;
      completed_at = c.completed_at;
    }

abbrev pub overview_found : Option Conversion → World → Option ConversionOverview
overview_found none w = none
overview_found (some c) w = some (to_overview c (list_parts c.id w))

unfoldable pub overview_for_owner : (conversion owner : ℕ) → World → Option ConversionOverview
unfolding to_overview
overview_for_owner conversion owner w = overview_found (find_by_id_for_owner conversion owner w) w

pub record DocumentConversionsCleanup : Type 0 where
  pub running : Bool
  pub file_keys : List Text

abbrev pub file_keys_of_all : Names → List Conversion → List Text
file_keys_of_all names [] = []
file_keys_of_all names (c ∷ cs) = conversion_file_keys names c ++ file_keys_of_all names cs

abbrev pub cleanup_of : Names → List Conversion → DocumentConversionsCleanup
cleanup_of names cs = record {
  running = exists is_conversion_running cs;
  file_keys = file_keys_of_all names cs;
}

unfoldable pub cleanup_for_document : Names → (document : ℕ) → World → DocumentConversionsCleanup
unfolding conversion_file_keys is_conversion_running
cleanup_for_document names document w = cleanup_of names (list_for_document document w)

unfoldable pub cleanup_for_owner : Names → (owner : ℕ) → World → DocumentConversionsCleanup
unfolding conversion_file_keys is_conversion_running
cleanup_for_owner names owner w = cleanup_of names (list_for_owner owner w)
