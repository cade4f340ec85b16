-- ===== src/Conversion/System/Follows.antt =====
-- Every step leads to a later state of each row.
use voxkivre_backend.Prelude.{
  ℕ, ◌≡◌, refl, sym, subst, Bool, true, false, Bool-cases, inl, inr, List, ◌∷◌, ◌++◌, map, Option,
  none, some, update, exists, exists_of_find, done, >>=-eq-done, arith, Followed-update,
  Followed-append, Followed-cons, length,
}
use voxkivre_backend.Billing.RefundQuota.{refund_quota}
use voxkivre_backend.Conversion.PartPlan.{PlannedPart}
use voxkivre_backend.Conversion.Status.{
  preparing, same_status, in_progress, Conversion, ConversionFailureReason, SegmentAudio,
  AssembledPart, PreparedSegment,
}
use voxkivre_backend.Conversion.Store.{
  World, Job, FailedConversionCharge, conversion_key, segment_key, part_key, segment_row, part_row,
  in_status, may_prepare, prepared_row, failed_row, touch, all_synthesized_of, all_assembled_of,
  unsynthesized_key, synthesized_row, unassembled_key, assembled_row, insert_segments, insert_parts,
  mark_preparing, complete_preparation, complete_segment, complete_if_all_segments_synthesized,
  mark_failed, complete_part, mark_ready_if_all_parts_assembled,
}
use voxkivre_backend.Billing.Store.{Db}
use voxkivre_backend.Billing.Units.{VoiceTier}
use voxkivre_backend.Conversion.StartConversion.{Launching, reserve_and_insert}
use voxkivre_backend.Conversion.FailConversion.{refund_charge, fail_and_refund}
use voxkivre_backend.Conversion.System.{
  Step, launches, prepares, plans, speaks, concludes, fails, delivers, readies, enqueues, buys,
  Reaches, here, then_,
}
use voxkivre_backend.Conversion.System.Planned.{
  insert-done, insert_segments-done, insert_parts-done,
}
use voxkivre_backend.Conversion.System.Launched.{
  Launched, refused, inserted, reserve_and_insert-Launched,
}
use voxkivre_backend.Conversion.System.Reached.{commits}
use voxkivre_backend.Conversion.System.Later.{
  may_become, IsLater, IsLater-refl, IsLaterSegment, IsLaterSegment-refl, IsLaterPart,
  IsLaterPart-refl, row_key, Follows, Follows-refl, Follows-trans, moved-Follows,
}

-- Where only the status and the times of a conversion are written.
later :
    (c c' : Conversion)
    → (c'.owner_id ≡ c.owner_id)
      × (c'.document_id ≡ c.document_id)
      × (c'.voice_id ≡ c.voice_id)
      × (c'.text_revision ≡ c.text_revision)
      × (c'.reserved_chars ≡ c.reserved_chars)
    → may_become c.status c'.status ≡ true
    → IsLater c c'
later c c' (o, d, v, r, n) s = record {
  owner = o;
  document = d;
  voice = v;
  revision = r;
  chars = n;
  status = s;
}

mark_preparing-Follows : (id at : ℕ) (w : World) → Follows w (mark_preparing id at w).1
unfolding mark_preparing
mark_preparing-Follows id at w =
    moved-Follows w (in_status id may_prepare) _ (λ i c. refl)
      (λ c e. later c _ (refl, refl, refl, refl, refl) (ground arith))

touch-Follows :
    (id at : ℕ) (w : World) → Follows w (record w { conversions = touch id at w.conversions })
touch-Follows id at w =
    moved-Follows w (conversion_key id) _ (λ i c. refl)
      (λ c e. later c _ (refl, refl, refl, refl, refl) ((IsLater-refl c).status))

complete_segment-Follows :
    (id index : ℕ) (audio : SegmentAudio) (at : ℕ) (w : World)
    → Follows w (complete_segment id index audio at w).1
unfolding complete_segment
complete_segment-Follows id index audio at w =
    elim (Bool-cases (exists (unsynthesized_key id index) w.segments)) [
      | inr e ↦ rw e (Follows-refl w)
      | inl e ↦ rw e (record {
        conversions = (touch-Follows id at w).conversions;
        segments =
            Followed-update IsLaterSegment (row_key segment_key) IsLaterSegment-refl
              (unsynthesized_key id index) (synthesized_row audio at) (λ i s. refl)
              (λ s k. record { ssml = refl; words = refl; final = λ z. absurd (ground arith) })
              w.segments;
        parts = (Follows-refl w).parts;
      })
    ]

complete_part-Follows :
    (id index : ℕ) (part : AssembledPart) (at : ℕ) (w : World)
    → Follows w (complete_part id index part at w).1
unfolding complete_part
complete_part-Follows id index part at w =
    elim (Bool-cases (exists (unassembled_key id index) w.parts)) [
      | inr e ↦ rw e (Follows-refl w)
      | inl e ↦ rw e (record {
        conversions = (touch-Follows id at w).conversions;
        segments = (Follows-refl w).segments;
        parts =
            Followed-update IsLaterPart (row_key part_key) IsLaterPart-refl
              (unassembled_key id index) (assembled_row part at) (λ i s. refl)
              (λ p k. record {
                first_segment = refl;
                last_segment = refl;
                final = λ z. absurd (ground arith);
              })
              w.parts;
      })
    ]

complete_if_all-Follows :
    (id at : ℕ) (w : World) → Follows w (complete_if_all_segments_synthesized id at w).1
unfolding complete_if_all_segments_synthesized
complete_if_all-Follows id at w =
    moved-Follows w (all_synthesized_of id w) _ (λ i c. refl)
      (λ c e. later c _ (refl, refl, refl, refl, refl) (ground arith))

mark_ready-Follows :
    (id at : ℕ) (w : World) → Follows w (mark_ready_if_all_parts_assembled id at w).1
unfolding mark_ready_if_all_parts_assembled
mark_ready-Follows id at w =
    moved-Follows w (all_assembled_of id w) _ (λ i c. refl)
      (λ c e. later c _ (refl, refl, refl, refl, refl) (ground arith))

mark_failed-Follows :
    (id : ℕ) (reason : ConversionFailureReason) (at : ℕ) (w : World)
    → Follows w (mark_failed id reason at w).1
unfolding mark_failed
mark_failed-Follows id reason at w =
    moved-Follows w (in_status id in_progress) (failed_row reason at) (λ i c. refl)
      (λ c e. later c _ (refl, refl, refl, refl, refl) (ground arith))

-- Billing and the queue are other tables.
others-Follows :
    (w w' : World) (billing : Db) (jobs : List Job)
    → Follows w w'
    → Follows w (record w' { billing = billing; jobs = jobs })
others-Follows w w' billing jobs h = record {
  conversions = h.conversions;
  segments = h.segments;
  parts = h.parts;
}

refund_charge-Follows :
    (id now entry_id : ℕ) (charge : Option FailedConversionCharge) (w₀ w : World) (b : Bool)
    (w' : World)
    → refund_charge id now entry_id charge w ≡ done (b, w')
    → Follows w₀ w
    → Follows w₀ w'
refund_charge-Follows id now entry_id none w₀ w b w' h v =
    let same : w ≡ w' = ground arith in subst (Follows w₀) same v
refund_charge-Follows id now entry_id (some charge) w₀ w b w' h v =
    let ((given, db), e, k) = >>=-eq-done (refund_quota id _ now entry_id w.billing) _ h in
    let same : record w { billing = db } ≡ w' = ground arith in
    subst (Follows w₀) same (others-Follows w₀ w db w.jobs v)

fail_and_refund-Follows :
    (id : ℕ) (reason : ConversionFailureReason) (now entry_id : ℕ) (w : World) (b : Bool)
    (w' : World)
    → fail_and_refund id reason now entry_id w ≡ done (b, w')
    → Follows w w'
unfolding fail_and_refund
fail_and_refund-Follows id reason now entry_id w b w' h =
    refund_charge-Follows id now entry_id (mark_failed id reason now w).0 w
      (mark_failed id reason now w).1 b w' h (mark_failed-Follows id reason now w)

complete_preparation-Follows :
    (id : ℕ) (segments : List PreparedSegment) (parts : List PlannedPart) (at : ℕ) (w : World)
    (b : Bool) (w' : World)
    → complete_preparation id segments parts at w ≡ done (b, w')
    → Follows w w'
unfolding complete_preparation
complete_preparation-Follows id segments parts at w b w' h =
    elim (Bool-cases (exists (in_status id (same_status preparing)) w.conversions)) [
      | inr e ↦ let same : w ≡ w' = ground arith in subst (Follows w) same (Follows-refl w)
      | inl e ↦
          let (sr, e₁, k) =
            >>=-eq-done (insert_segments id segments w.segments) _
              (rw (e, complete_preparation) at h) in
          let (pr, e₂, k₂) = >>=-eq-done (insert_parts id segments parts w.parts) _ k in
          let s = insert_segments-done id segments w.segments sr e₁ in
          let p = insert_parts-done id segments parts w.parts pr e₂ in
          let w₂ : World = record {
            conversions =
                update (in_status id (same_status preparing))
                  (prepared_row (length segments) (length parts) at) w.conversions;
            segments = w.segments ++ map (segment_row id) segments;
            parts = w.parts ++ map (part_row id segments) parts;
            billing = w.billing;
            jobs = w.jobs;
          } in
          let moved =
            moved-Follows w (in_status id (same_status preparing))
              (prepared_row (length segments) (length parts) at) (λ i c. refl)
              (λ c i. later c _ (refl, refl, refl, refl, refl) (ground arith)) in
          let planned : Follows w w₂ = record {
            conversions = moved.conversions;
            segments =
                Followed-append IsLaterSegment (row_key segment_key) IsLaterSegment-refl w.segments
                  _;
            parts = Followed-append IsLaterPart (row_key part_key) IsLaterPart-refl w.parts _;
          } in
          let same : w₂ ≡ w' = ground arith in subst (Follows w) same planned
    ]

Launched-Follows :
    (launching : Launching) (tier : VoiceTier) (c : Conversion) (w w' : World)
    → Launched launching tier c w w'
    → Follows w w'
Launched-Follows launching tier c w w' (refused e db k same) =
    subst (Follows w) same (others-Follows w w db w.jobs (Follows-refl w))
Launched-Follows launching tier c w w' (inserted r db rows k i same) =
    let ins = insert-done c w.conversions rows i in
    let grown : Follows w (record w { billing = db; conversions = c ∷ w.conversions }) = record {
      conversions = Followed-cons IsLater conversion_key IsLater-refl c w.conversions (λ j y e.
          elim (Bool-cases (conversion_key j c)) [
            | inr n ↦ n
            | inl m ↦
                let is_id : c.id ≡ j = ground arith in
                let there = exists_of_find (conversion_key j) w.conversions e in
                let absent =
                  subst (λ x. exists (conversion_key x) w.conversions ≡ false) is_id ins.fresh in
                absurd (cc)
          ]);
      segments = (Follows-refl w).segments;
      parts = (Follows-refl w).parts;
    } in
    subst (Follows w) same
      (subst (λ x. Follows w (record w { billing = db; conversions = x })) (sym ins.result) grown)

pub Step-Follows : {w w' : World} → Step w w' → Follows w w'
Step-Follows {w} (launches launching tier c q) =
    commits (Follows w) (reserve_and_insert launching tier c) w
      (λ r w' h.
        Launched-Follows launching tier c w w'
          (reserve_and_insert-Launched launching tier c w r w' h))
      (Follows-refl w)
Step-Follows {w} (prepares id at) = mark_preparing-Follows id at w
Step-Follows {w} (plans id segments parts at) =
    commits (Follows w) (complete_preparation id segments parts at) w
      (λ b w' h. complete_preparation-Follows id segments parts at w b w' h) (Follows-refl w)
Step-Follows {w} (speaks id index audio at) = complete_segment-Follows id index audio at w
Step-Follows {w} (concludes id at) = complete_if_all-Follows id at w
Step-Follows {w} (fails id reason now entry_id) =
    commits (Follows w) (fail_and_refund id reason now entry_id) w
      (λ b w' h. fail_and_refund-Follows id reason now entry_id w b w' h) (Follows-refl w)
Step-Follows {w} (delivers id index part at) = complete_part-Follows id index part at w
Step-Follows {w} (readies id at) = mark_ready-Follows id at w
Step-Follows {w} (enqueues job) = others-Follows w w w.billing _ (Follows-refl w)
Step-Follows {w} (buys input now id) = others-Follows w w _ w.jobs (Follows-refl w)

-- However launches, workers, sweeps and purchases follow each other: no conversion, segment or
-- part is lost; a conversion keeps its owner, document, voice, revision and reserved characters,
-- and its status only moves forward, to failed from the first three; a segment keeps its text and,
-- once it has its audio, its whole row; a part keeps its segments and, once it is assembled, its
-- whole row.
pub Reaches-Follows : {w w' : World} → Reaches w w' → Follows w w'
Reaches-Follows {w} here = Follows-refl w
Reaches-Follows {w} {w'} (then_ {w' = m} s h) =
    Follows-trans w m w' (Step-Follows s) (Reaches-Follows h)
