-- ===== src/Conversion/Outcomes/Planning.antt =====
-- The plan of a conversion can be written (prepare-conversion.use-case.ts).
use voxkivre_backend.Prelude.{
  ℕ, ◌+◌, ◌<◌, ◌≤◌, ◌≡◌, refl, ap, subst, Bool, true, false, List, [], ◌∷◌, ◌++◌, map, length,
  update, exists, exists-append, not_exists-narrow, find-narrow, find-holds, exists_of_find,
  All-holds, find, done, arith, some,
}
use voxkivre_backend.Shared.Text.{Text}
use voxkivre_backend.Conversion.PartPlan.{PlannedPart, plan_parts}
use voxkivre_backend.Conversion.PartPlan.Covers.{AreConsecutive, plan_parts-AreConsecutive}
use voxkivre_backend.Conversion.Files.{Names}
use voxkivre_backend.Conversion.Segmenter.{
  SsmlSegment, PageText, Pronunciation, build_ssml_segments,
}
use voxkivre_backend.Conversion.Segmenter.Words.{AreNumbered, build_ssml_segments-words}
use voxkivre_backend.Conversion.Status.{PreparedSegment, Conversion, preparing, same_status}
use voxkivre_backend.Conversion.Store.{
  World, SegmentRow, PartRow, conversion_key, may_prepare, segment_of, segment_key, part_of,
  part_key, segment_row, part_row, prepared_row, in_status, insert_segments, insert_parts,
  write_plan, complete_preparation,
}
use voxkivre_backend.Conversion.PrepareConversion.{prepared_from}
use voxkivre_backend.Conversion.System.Sound.{IsSound, IsWhole}

-- Indexes from n on, without a gap.
abbrev CountFrom : ℕ → List PreparedSegment → Type 0
CountFrom n [] = Unit
CountFrom n (s ∷ ss) = (s.index ≡ n) × CountFrom (n + 1) ss

prepared_from-CountFrom :
    (names : Names) (signature : Text) (parts : List PlannedPart) (words_before n : ℕ)
    (segments : List SsmlSegment)
    → AreNumbered n segments
    → CountFrom n (prepared_from names signature parts words_before segments)
unfolding prepared_from
prepared_from-CountFrom names signature parts words_before n [] h = tt
prepared_from-CountFrom names signature parts words_before n (s ∷ ss) (i, _, h) =
    (i, prepared_from-CountFrom names signature parts (words_before + length s.words) (n + 1) ss h)

-- No row has the key of an index from n on.
abbrev AreFree : {A : Type 0} → (ℕ → A → Bool) → ℕ → List A → Type 0
AreFree key n rows = (k : ℕ) → n ≤ k → exists (key k) rows ≡ false

AreFree-append :
    {A : Type 0} (key : ℕ → A → Bool) (n : ℕ) (rows : List A) (row : A)
    → ((k : ℕ) → n < k → key k row ≡ false)
    → AreFree key n rows
    → AreFree key (n + 1) (rows ++ (row ∷ []))
AreFree-append key n rows row h free k le =
    ground (arith, exists-append (key k) rows (row ∷ []), h k, free k)

insert_segments_total :
    (id n : ℕ) (segments : List PreparedSegment) (rows : List SegmentRow)
    → CountFrom n segments
    → AreFree (segment_key id) n rows
    → (rows' : List SegmentRow) × (insert_segments id segments rows ≡ done rows')
unfolding insert_segments
insert_segments_total id n [] rows h free = (rows, refl)
insert_segments_total id n (s ∷ ss) rows (i, h) free =
    let absent : exists (segment_key id s.index) rows ≡ false = free s.index (omega arith) in
    let (rows', e) =
      insert_segments_total id (n + 1) ss (rows ++ (segment_row id s ∷ [])) h
        (AreFree-append (segment_key id) n rows (segment_row id s) (λ k lt. ground arith) free) in
    (rows', ground arith)

insert_parts_total :
    (id n first total : ℕ) (segments : List PreparedSegment) (parts : List PlannedPart)
    (rows : List PartRow)
    → AreConsecutive n first total parts
    → AreFree (part_key id) n rows
    → (rows' : List PartRow) × (insert_parts id segments parts rows ≡ done rows')
unfolding insert_parts
insert_parts_total id n first total segments [] rows h free = (rows, refl)
insert_parts_total id n first total segments (p ∷ ps) rows (i, f, le, h) free =
    let absent : exists (part_key id p.index) rows ≡ false = free p.index (omega arith) in
    let (rows', e) =
      insert_parts_total id (n + 1) (p.last_segment + 1) total segments ps
        (rows ++ (part_row id segments p ∷ [])) h
        (AreFree-append (part_key id) n rows (part_row id segments p) (λ k lt. ground arith)
          free) in
    (rows', ground arith)

free_of_none :
    {A : Type 0} (key : ℕ → A → Bool) (mine : A → Bool) (rows : List A)
    → ((k : ℕ) (row : A) → key k row ≡ true → mine row ≡ true)
    → exists mine rows ≡ false
    → AreFree key 0 rows
free_of_none key mine rows h e k le = not_exists-narrow (key k) mine rows (h k) e

-- In a state that launches, workers and sweeps may have reached, the plan of a conversion that is
-- in preparation can be written, whatever the pages hold: no constraint of the schema is broken,
-- and the transaction answers true.
pub complete_preparation_total :
    (pronounce : Pronunciation) (pages : List PageText) (names : Names) (signature : Text)
    (id at : ℕ) (w : World) (c : Conversion)
    → IsSound w
    → find (conversion_key id) w.conversions ≡ some c
    → c.status ≡ preparing
    → (w' : World) × (complete_preparation id
          (prepared_from names signature
            (plan_parts
              (map (λ (s : SsmlSegment). s.char_count) (build_ssml_segments pronounce pages)))
            0
            (build_ssml_segments pronounce pages))
          (plan_parts
            (map (λ (s : SsmlSegment). s.char_count) (build_ssml_segments pronounce pages)))
          at
          w
        ≡ done (true, w'))
unfolding complete_preparation write_plan
complete_preparation_total pronounce pages names signature id at w c v found is_preparing =
    let ssml = build_ssml_segments pronounce pages in
    let counts = map (λ (s : SsmlSegment). s.char_count) ssml in
    let parts = plan_parts counts in
    let segments = prepared_from names signature parts 0 ssml in
    let whole =
      All-holds (IsWhole w.segments w.parts) (conversion_key id) w.conversions c v.whole found in
    let keyed = find-holds (conversion_key id) w.conversions found in
    let is_id : c.id ≡ id = ground arith in
    let waits : may_prepare c.status ≡ true = ap may_prepare is_preparing in
    let no_segments =
      subst (λ i. exists (segment_of i) w.segments ≡ false) is_id (whole.no_segments waits) in
    let no_parts = subst (λ i. exists (part_of i) w.parts ≡ false) is_id (whole.no_parts waits) in
    let (segment_rows, e₁) =
      insert_segments_total id 0 segments w.segments
        (prepared_from-CountFrom names signature parts 0 0 ssml
          (build_ssml_segments-words pronounce pages).1)
        (free_of_none (segment_key id) (segment_of id) w.segments (λ k row h. ground arith)
          no_segments) in
    let (part_rows, e₂) =
      insert_parts_total id 0 0 (length counts) segments parts w.parts
        (plan_parts-AreConsecutive counts)
        (free_of_none (part_key id) (part_of id) w.parts (λ k row h. ground arith) no_parts) in
    let there : in_status id (same_status preparing) c ≡ true = ground arith in
    let guard : exists (in_status id (same_status preparing)) w.conversions ≡ true =
      exists_of_find (in_status id (same_status preparing)) w.conversions (
        find-narrow (in_status id (same_status preparing)) (conversion_key id) w.conversions c
          (λ y h. ground arith) found there) in
    let w' : World = record {
      conversions =
          update (in_status id (same_status preparing))
            (prepared_row (length segments) (length parts) at) w.conversions;
      segments = segment_rows;
      parts = part_rows;
      billing = w.billing;
      jobs = w.jobs;
    } in
    (w', rw (guard, e₁, e₂) refl)
