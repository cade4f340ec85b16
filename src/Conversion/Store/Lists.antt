-- ===== src/Conversion/Store/Lists.antt =====
-- The statements of conversion.drizzle-repository.ts that read a list or count.
use voxkivre_backend.Prelude.{
  ℕ, ◌==◌, ltb, leb, ◌&&◌, ◌||◌, not, Bool, false, List, [], ◌∷◌, map, length, select, exists,
  if◌then◌else◌,
}
use voxkivre_backend.Shared.Text.{take}
use voxkivre_backend.Conversion.Status.{
  ConversionStatus, Conversion, ConversionSegment, ConversionPart,
}
use voxkivre_backend.Conversion.Store.{
  SegmentRow, PartRow, World, is_index, is_set, segment_of, is_pending, part_of, is_unassembled,
}
use voxkivre_backend.Conversion.Store.Reads.{to_segment, to_part}

module _ {A : Type 0} where
  -- ORDER BY key ASC; of two rows with one key, the first.
  abbrev pub insert_by : (A → ℕ) → A → List A → List A
  insert_by key x [] = x ∷ []
  insert_by key x (y ∷ ys) = if leb (key x) (key y) then x ∷ y ∷ ys else y ∷ insert_by key x ys

  abbrev pub sort_by : (A → ℕ) → List A → List A
  sort_by key [] = []
  sort_by key (x ∷ xs) = insert_by key x (sort_by key xs)

-- `inArray`
abbrev pub member : List ℕ → ℕ → Bool
member [] n = false
member (m ∷ ms) n = m == n || member ms n

unfoldable pub list_pending_segment_indexes : ℕ → World → List ℕ
list_pending_segment_indexes id w =
    map (λ (row : SegmentRow). row.segment_index)
      (sort_by (λ row. row.segment_index) (select (is_pending id) w.segments))

unfoldable pub count_synthesized_segments : ℕ → World → ℕ
count_synthesized_segments id w =
    length (select (λ row. segment_of id row && is_set row.audio_key) w.segments)

unfoldable pub list_parts : ℕ → World → List ConversionPart
list_parts id w = map to_part (sort_by (λ row. row.part_index) (select (part_of id) w.parts))

unfoldable pub list_part_segments : (id part_index : ℕ) → World → List ConversionSegment
list_part_segments id part_index w = map to_segment (
    sort_by (λ row. row.segment_index)
      (select (λ row. segment_of id row && is_index row.part_index part_index) w.segments))

-- A part that is not assembled and has no segment that waits.
abbrev pub is_assemblable : ℕ → World → PartRow → Bool
is_assemblable id w row =
    is_unassembled id row
    && not (exists (λ s. is_pending id s && is_index s.part_index row.part_index) w.segments)

unfoldable pub list_assemblable_part_indexes : ℕ → World → List ℕ
list_assemblable_part_indexes id w =
    map (λ (row : PartRow). row.part_index)
      (sort_by (λ row. row.part_index) (select (is_assemblable id w) w.parts))

unfoldable pub count_assembled_parts : ℕ → World → ℕ
count_assembled_parts id w =
    length (select (λ row. part_of id row && is_set row.assembled_at) w.parts)

pub record StalledConversion : Type 0 where
  pub id : ℕ
  pub status : ConversionStatus

unfoldable pub find_stalled :
    (admits : ConversionStatus → Bool) (updated_before limit : ℕ) → World → List StalledConversion
find_stalled admits updated_before limit w =
    map (λ (c : Conversion). record { id = c.id; status = c.status })
      (take limit (
        sort_by (λ c. c.updated_at)
          (select (λ c. admits c.status && ltb c.updated_at updated_before) w.conversions)))

unfoldable pub list_for_documents : (owner : ℕ) (documents : List ℕ) → World → List Conversion
list_for_documents owner [] w = []
list_for_documents owner (d ∷ ds) w =
    select (λ c. c.owner_id == owner && member (d ∷ ds) c.document_id) w.conversions

-- ORDER BY conversion_id, part_index: a stable sort by the second key, then by the first.
unfoldable pub list_parts_of : List ℕ → World → List ConversionPart
list_parts_of [] w = []
list_parts_of (id ∷ ids) w = map to_part (
    sort_by (λ row. row.conversion_id)
      (sort_by (λ row. row.part_index)
        (select (λ row. member (id ∷ ids) row.conversion_id) w.parts)))

unfoldable pub list_for_document : (document : ℕ) → World → List Conversion
list_for_document document w = select (λ c. c.document_id == document) w.conversions

unfoldable pub list_for_owner : (owner : ℕ) → World → List Conversion
list_for_owner owner w = select (λ c. c.owner_id == owner) w.conversions
