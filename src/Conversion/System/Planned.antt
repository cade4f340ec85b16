-- ===== src/Conversion/System/Planned.antt =====
-- The transaction that writes the plan of a conversion, and the insertion of a conversion.
use voxkivre_backend.Prelude.{
  ℕ, ◌<◌, ◌==◌, ◌≡◌, refl, sym, ap, ◌∙◌, subst, Bool, true, false, Bool-cases, inl, inr, List, [],
  ◌∷◌, ◌++◌, map, length, update, exists, exists-append, All, All-append, All-map, All-both,
  All-update, All-narrowed, not_exists-narrow, AtMostOne-update, AtMostOne-shrink, exists-update,
  done, >>=-eq-done, arith,
}
use mathlib.Core.List.{append_assoc, append-nil}
use voxkivre_backend.Shared.Text.{Text, same_text-eq}
use voxkivre_backend.Conversion.PartPlan.{PlannedPart}
use voxkivre_backend.Conversion.Status.{
  queued, preparing, failed, same_status, Conversion, PreparedSegment,
}
use voxkivre_backend.Conversion.Store.{
  World, SegmentRow, PartRow, conversion_key, segment_of, part_of, in_status, is_pending,
  is_unassembled, is_active_for, segment_row, part_row, prepared_row, insert, insert_segments,
  insert_parts, write_plan, complete_preparation,
}
use voxkivre_backend.Conversion.System.Sound.{IsWhole, IsSound, HasConversion}

pub insert_segments-done :
    (id : ℕ) (segments : List PreparedSegment) (rows rows' : List SegmentRow)
    → insert_segments id segments rows ≡ done rows'
    → rows' ≡ rows ++ map (segment_row id) segments
unfolding insert_segments
insert_segments-done id [] rows rows' h = ground (arith, append-nil rows)
insert_segments-done id (s ∷ ss) rows rows' h =
    insert_segments-done id ss (rows ++ (segment_row id s ∷ [])) rows' (ground arith)
    ∙ append_assoc rows (segment_row id s ∷ []) (map (segment_row id) ss)

pub insert_parts-done :
    (id : ℕ) (segments : List PreparedSegment) (parts : List PlannedPart)
    (rows rows' : List PartRow)
    → insert_parts id segments parts rows ≡ done rows'
    → rows' ≡ rows ++ map (part_row id segments) parts
unfolding insert_parts
insert_parts-done id segments [] rows rows' h = ground (arith, append-nil rows)
insert_parts-done id segments (p ∷ ps) rows rows' h =
    insert_parts-done id segments ps (rows ++ (part_row id segments p ∷ [])) rows' (ground arith)
    ∙ append_assoc rows (part_row id segments p ∷ []) (map (part_row id segments) ps)

module _ {A B : Type 0} (p : B → Bool) (f : A → B) where
  none_of_map : (xs : List A) → ((x : A) → p (f x) ≡ false) → exists p (map f xs) ≡ false
  none_of_map [] h = refl
  none_of_map (x ∷ xs) h = ground (arith, h x, none_of_map xs h)

  none_added :
      (rows : List B) (xs : List A)
      → ((x : A) → p (f x) ≡ false)
      → exists p rows ≡ false
      → exists p (rows ++ map f xs) ≡ false
  none_added rows xs h e = ground (arith, exists-append p rows (map f xs), none_of_map xs h)

All_of_map {κ} :
    {A B : Type 0} (P : B → Type κ) (f : A → B) (xs : List A)
    → ((x : A) → P (f x))
    → All P (map f xs)
All_of_map P f [] h = tt
All_of_map P f (x ∷ xs) h = (h x, All_of_map P f xs h)

-- A conversion other than the one that is planned.
IsWhole-planned :
    (id : ℕ) (segments : List PreparedSegment) (parts : List PlannedPart)
    (segment_rows : List SegmentRow) (part_rows : List PartRow) (c : Conversion)
    → (c.id == id) ≡ false
    → IsWhole segment_rows part_rows c
    → IsWhole
        (segment_rows ++ map (segment_row id) segments)
        (part_rows ++ map (part_row id segments) parts)
        c
IsWhole-planned id segments parts segment_rows part_rows c other h = record {
  no_segments = λ e.
      none_added (segment_of c.id) (segment_row id) segment_rows segments (λ s. ground arith)
        (h.no_segments e);
  no_parts = λ e.
      none_added (part_of c.id) (part_row id segments) part_rows parts (λ s. ground arith)
        (h.no_parts e);
  spoken = λ e.
      none_added (is_pending c.id) (segment_row id) segment_rows segments (λ s. ground arith)
        (h.spoken e);
  delivered = λ e.
      none_added (is_unassembled c.id) (part_row id segments) part_rows parts (λ s. ground arith)
        (h.delivered e);
}

module _ (id : ℕ) (segments : List PreparedSegment) (parts : List PlannedPart) (at : ℕ) (w : World)
    (v : IsSound w)
    (found : exists (in_status id (same_status preparing)) w.conversions ≡ true) where
  planned : World
  planned = record {
    conversions =
        update (in_status id (same_status preparing))
          (prepared_row (length segments) (length parts) at) w.conversions;
    segments = w.segments ++ map (segment_row id) segments;
    parts = w.parts ++ map (part_row id segments) parts;
    billing = w.billing;
    jobs = w.jobs;
  }

  owner : HasConversion w.conversions id
  owner = elim (Bool-cases (exists (conversion_key id) w.conversions)) [
    | inl e ↦ e
    | inr e ↦
        let none_planned =
          not_exists-narrow (in_status id (same_status preparing)) (conversion_key id) w.conversions
            (λ c k. ground arith) e in
        absurd (ground arith)
  ]

  planned-IsSound : IsSound planned
  unfolding planned
  planned-IsSound =
      let q = in_status id (same_status preparing) in
      let f = prepared_row (length segments) (length parts) at in
      let kept = λ (i : ℕ). exists-update q (conversion_key i) f w.conversions (λ c. refl) in
      record {
        one_conversion = λ i.
            AtMostOne-update (conversion_key i) q f w.conversions (λ c. refl) (v.one_conversion i);
        one_active = λ d t r.
            AtMostOne-shrink (is_active_for d t r) q f w.conversions (λ c e a. ground arith)
              (v.one_active d t r);
        whole =
            All-update _ _ q f w.conversions
              (λ c e h. record {
                no_segments = λ k. absurd (cc);
                no_parts = λ k. absurd (cc);
                spoken = λ k. absurd (cc);
                delivered = λ k. absurd (cc);
              })
              (λ c e h.
                IsWhole-planned id segments parts w.segments w.parts c (ground (arith, h.1)) h.0)
              (All-both (IsWhole w.segments w.parts) (λ c. conversion_key id c ≡ true → q c ≡ true)
                w.conversions v.whole
                (All-narrowed (conversion_key id) q w.conversions (λ c e. ground arith)
                  (v.one_conversion id) found));
        owned_segments =
            All-append _ w.segments _
              (All-map _ _ w.segments (λ s h. kept s.conversion_id ∙ h) v.owned_segments)
              (All_of_map _ (segment_row id) segments (λ s. kept id ∙ owner));
        owned_parts =
            All-append _ w.parts _
              (All-map _ _ w.parts (λ p h. kept p.conversion_id ∙ h) v.owned_parts)
              (All_of_map _ (part_row id segments) parts (λ p. kept id ∙ owner));
      }

  write_plan-IsSound :
      (b : Bool) (w' : World) → write_plan id segments parts at w ≡ done (b, w') → IsSound w'
  unfolding write_plan planned
  write_plan-IsSound b w' h =
      let (segment_rows, e, k) = >>=-eq-done (insert_segments id segments w.segments) _ h in
      let (part_rows, e', k') = >>=-eq-done (insert_parts id segments parts w.parts) _ k in
      let s = insert_segments-done id segments w.segments segment_rows e in
      let p = insert_parts-done id segments parts w.parts part_rows e' in
      let same : planned ≡ w' = ground arith in subst IsSound same planned-IsSound

pub complete_preparation-IsSound :
    (id : ℕ) (segments : List PreparedSegment) (parts : List PlannedPart) (at : ℕ) (w : World)
    (b : Bool) (w' : World)
    → complete_preparation id segments parts at w ≡ done (b, w')
    → IsSound w
    → IsSound w'
unfolding complete_preparation
complete_preparation-IsSound id segments parts at w b w' h v =
    elim (Bool-cases (exists (in_status id (same_status preparing)) w.conversions)) [
      | inl e ↦ write_plan-IsSound id segments parts at w v e b w' (ground arith)
      | inr e ↦ let same : w ≡ w' = ground arith in subst IsSound same v
    ]

-- What an insertion that does not throw has found and written.
pub record Inserted (c : Conversion) (rows rows' : List Conversion) : Type 0 where
  pub fresh : exists (conversion_key c.id) rows ≡ false
  pub only :
      same_status c.status failed ≡ false
      → exists (is_active_for c.document_id c.voice_id c.text_revision) rows ≡ false
  pub charged : 0 < c.reserved_chars
  pub result : rows' ≡ c ∷ rows

pub insert-done :
    (c : Conversion) (rows rows' : List Conversion)
    → insert c rows ≡ done rows'
    → Inserted c rows rows'
unfolding insert
insert-done c rows rows' h = record {
  fresh = ground arith;
  only = λ e. ground arith;
  charged = ground arith;
  result = ground arith;
}

-- The rows of a conversion that is not there.
no_rows {ℓ} :
    {A : Type ℓ} (owner : A → ℕ) (conversions : List Conversion) (id : ℕ) (rows : List A)
    → exists (conversion_key id) conversions ≡ false
    → All (λ r. HasConversion conversions (owner r)) rows
    → exists (λ r. owner r == id) rows ≡ false
no_rows owner conversions id [] e v = refl
no_rows owner conversions id (r ∷ rows) e (h, v) = elim (Bool-cases (owner r == id)) [
  | inl k ↦
      let same : owner r ≡ id = ground arith in
      let there : HasConversion conversions id = subst (HasConversion conversions) same h in
      absurd (cc)
  | inr k ↦ ground (arith, no_rows owner conversions id rows e v)
]

same_key :
    (c : Conversion) (id : ℕ) (rows : List Conversion)
    → conversion_key id c ≡ true
    → exists (conversion_key c.id) rows ≡ false
    → exists (conversion_key id) rows ≡ false
same_key c id rows k e =
    let same : c.id ≡ id = ground arith in
    subst (λ i. exists (conversion_key i) rows ≡ false) same e

same_target :
    (c : Conversion) (d : ℕ) (t : Text) (r : ℕ) (rows : List Conversion)
    → is_active_for d t r c ≡ true
    → exists (is_active_for c.document_id c.voice_id c.text_revision) rows ≡ false
    → exists (is_active_for d t r) rows ≡ false
same_target c d t r rows k e =
    let d' : c.document_id ≡ d = ground arith in
    let t' : c.voice_id ≡ t = same_text-eq c.voice_id t (ground arith) in
    let r' : c.text_revision ≡ r = ground arith in
    subst (λ x. exists (is_active_for d t x) rows ≡ false) r'
      (subst (λ x. exists (is_active_for d x c.text_revision) rows ≡ false) t'
        (subst (λ x. exists (is_active_for x c.voice_id c.text_revision) rows ≡ false) d' e))

pub insert-IsSound :
    (c : Conversion) (w : World) (rows : List Conversion)
    → c.status ≡ queued
    → insert c w.conversions ≡ done rows
    → IsSound w
    → IsSound (record w { conversions = rows })
insert-IsSound c w rows q h v =
    let i = insert-done c w.conversions rows h in
    let no_s =
      no_rows (λ (s : SegmentRow). s.conversion_id) w.conversions c.id w.segments i.fresh
        v.owned_segments in
    let no_p =
      no_rows (λ (p : PartRow). p.conversion_id) w.conversions c.id w.parts i.fresh v.owned_parts in
    let wider = λ (j : ℕ) (e : HasConversion w.conversions j).
      let there : HasConversion (c ∷ w.conversions) j = ground arith in there in
    let whole : IsWhole w.segments w.parts c = record {
      no_segments = λ _. no_s;
      no_parts = λ _. no_p;
      spoken = λ e. absurd (cc);
      delivered = λ e. absurd (cc);
    } in
    subst (λ x. IsSound (record w { conversions = x })) (sym i.result)
      (record {
        one_conversion = λ j. ((λ k. same_key c j w.conversions k i.fresh), v.one_conversion j);
        one_active = λ d t r. (
          (λ k. same_target c d t r w.conversions k (i.only (ap (λ s. same_status s failed) q))),
          v.one_active d t r,
        );
        whole = (whole, v.whole);
        owned_segments = All-map _ _ w.segments (λ s e. wider s.conversion_id e) v.owned_segments;
        owned_parts = All-map _ _ w.parts (λ p e. wider p.conversion_id e) v.owned_parts;
      })
