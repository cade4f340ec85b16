-- ===== src/Conversion/System/Reached.antt =====
-- What holds in every state that the statements of conversion may reach.
use voxkivre_backend.Prelude.{
  ℕ, ◌≡◌, refl, subst, Bool, List, Outcome, done, thrown, committed, some, none, length,
  with_transaction, update, exists, Bool-cases, inl, inr, Option, >>=-eq-done, arith,
}
use voxkivre_backend.Billing.Offers.{Offer}
use voxkivre_backend.Billing.GrantOffer.{grant_offer}
use voxkivre_backend.Billing.System.{with_transaction_keeps}
use voxkivre_backend.Billing.System.Reservations.{grant_offer-reservations}
use voxkivre_backend.Conversion.Status.{
  preparing, same_status, ConversionFailureReason, SegmentAudio, AssembledPart, PreparedSegment,
}
use voxkivre_backend.Conversion.PartPlan.{PlannedPart}
use voxkivre_backend.Conversion.Store.{
  World, conversion_key, in_status, may_prepare, touch, all_synthesized_of, all_assembled_of,
  unsynthesized_key, unassembled_key, prepared_row, insert_segments, insert_parts, mark_preparing,
  complete_preparation, complete_segment, complete_if_all_segments_synthesized, complete_part,
  FailedConversionCharge, mark_failed, mark_ready_if_all_parts_assembled,
}
use voxkivre_backend.Conversion.StartConversion.{reserve_and_insert}
use voxkivre_backend.Billing.RefundQuota.{refund_quota}
use voxkivre_backend.Conversion.FailConversion.{refund_charge, fail_and_refund}
use voxkivre_backend.Conversion.System.{
  Step, launches, prepares, plans, speaks, concludes, fails, delivers, readies, enqueues, buys,
  Reaches, here, then_, empty_world,
}
use voxkivre_backend.Conversion.System.Sound.{IsSound, others-IsSound}
use voxkivre_backend.Conversion.System.Statements.{
  mark_preparing-IsSound, complete_segment-IsSound, complete_if_all-IsSound, mark_failed-IsSound,
  complete_part-IsSound, mark_ready-IsSound,
}
use voxkivre_backend.Conversion.System.Planned.{complete_preparation-IsSound}
use voxkivre_backend.Conversion.System.Reserved.{
  IsReserved, conversions-IsReserved, unrelated-IsReserved, fail_and_refund-IsReserved,
}
use voxkivre_backend.Conversion.System.Launched.{
  reserve_and_insert-Launched, Launched-IsSound, Launched-IsReserved,
}

-- Both, as the one needs the other.
pub record IsConsistent (w : World) : Type 0 where
  pub sound : IsSound w
  pub reserved : IsReserved w

-- What a transaction that commits establishes, and a rollback keeps.
pub commits {ℓ} :
    {A : Type 0} (P : World → Type ℓ) (body : World → Outcome (A × World)) (w : World)
    → ((a : A) (w' : World) → body w ≡ done (a, w') → P w')
    → P w
    → P (with_transaction body w).1
commits P body w keep p = go (body w) refl
  where
    go : (o : Outcome _) → body w ≡ o → P (committed w o).1
    go (done (a, w')) e = keep a w' e
    go (thrown x) e = p

mark_preparing-IsReserved :
    (id at : ℕ) (w : World) → IsReserved w → IsReserved (mark_preparing id at w).1
unfolding mark_preparing
mark_preparing-IsReserved id at w v =
    conversions-IsReserved w (in_status id may_prepare) _ (λ c. refl) (λ c. refl) (λ c. refl)
      (λ c e k. ground arith) v

touch-IsReserved :
    (id at : ℕ) (w : World)
    → IsReserved w
    → IsReserved (record w { conversions = touch id at w.conversions })
touch-IsReserved id at w v =
    conversions-IsReserved w (conversion_key id) _ (λ c. refl) (λ c. refl) (λ c. refl) (λ c e k. k)
      v

complete_segment-IsReserved :
    (id index : ℕ) (audio : SegmentAudio) (at : ℕ) (w : World)
    → IsReserved w
    → IsReserved (complete_segment id index audio at w).1
unfolding complete_segment
complete_segment-IsReserved id index audio at w v =
    elim (Bool-cases (exists (unsynthesized_key id index) w.segments)) [
      | inr e ↦ rw e v
      | inl e ↦ rw e (unrelated-IsReserved _ _ refl refl (touch-IsReserved id at w v))
    ]

complete_part-IsReserved :
    (id index : ℕ) (part : AssembledPart) (at : ℕ) (w : World)
    → IsReserved w
    → IsReserved (complete_part id index part at w).1
unfolding complete_part
complete_part-IsReserved id index part at w v =
    elim (Bool-cases (exists (unassembled_key id index) w.parts)) [
      | inr e ↦ rw e v
      | inl e ↦ rw e (unrelated-IsReserved _ _ refl refl (touch-IsReserved id at w v))
    ]

complete_if_all-IsReserved :
    (id at : ℕ) (w : World)
    → IsReserved w
    → IsReserved (complete_if_all_segments_synthesized id at w).1
unfolding complete_if_all_segments_synthesized
complete_if_all-IsReserved id at w v =
    conversions-IsReserved w (all_synthesized_of id w) _ (λ c. refl) (λ c. refl) (λ c. refl)
      (λ c e k. ground arith) v

mark_ready-IsReserved :
    (id at : ℕ) (w : World)
    → IsReserved w
    → IsReserved (mark_ready_if_all_parts_assembled id at w).1
unfolding mark_ready_if_all_parts_assembled
mark_ready-IsReserved id at w v =
    conversions-IsReserved w (all_assembled_of id w) _ (λ c. refl) (λ c. refl) (λ c. refl)
      (λ c e k. ground arith) v

complete_preparation-IsReserved :
    (id : ℕ) (segments : List PreparedSegment) (parts : List PlannedPart) (at : ℕ) (w : World)
    (b : Bool) (w' : World)
    → complete_preparation id segments parts at w ≡ done (b, w')
    → IsReserved w
    → IsReserved w'
unfolding complete_preparation
complete_preparation-IsReserved id segments parts at w b w' h v =
    elim (Bool-cases (exists (in_status id (same_status preparing)) w.conversions)) [
      | inr e ↦ let same : w ≡ w' = ground arith in subst IsReserved same v
      | inl e ↦
          let (sr, e₁, k) =
            >>=-eq-done (insert_segments id segments w.segments) _
              (rw (e, complete_preparation) at h) in
          let (pr, e₂, k₂) = >>=-eq-done (insert_parts id segments parts w.parts) _ k in
          let v' =
            conversions-IsReserved w (in_status id (same_status preparing))
              (prepared_row (length segments) (length parts) at) (λ c. refl) (λ c. refl) (λ c. refl)
              (λ c i j. ground arith) v in
          let w₂ : World = record {
            conversions =
                update (in_status id (same_status preparing))
                  (prepared_row (length segments) (length parts) at) w.conversions;
            segments = sr;
            parts = pr;
            billing = w.billing;
            jobs = w.jobs;
          } in
          let same : w₂ ≡ w' = ground arith in
          subst IsReserved same (unrelated-IsReserved _ w₂ refl refl v')
    ]

refund_charge-IsSound :
    (id now entry_id : ℕ) (charge : Option FailedConversionCharge) (w : World) (b : Bool)
    (w' : World)
    → refund_charge id now entry_id charge w ≡ done (b, w')
    → IsSound w
    → IsSound w'
refund_charge-IsSound id now entry_id none w b w' h v =
    let same : w ≡ w' = ground arith in subst IsSound same v
refund_charge-IsSound id now entry_id (some charge) w b w' h v =
    let ((given, db), e, k) = >>=-eq-done (refund_quota id _ now entry_id w.billing) _ h in
    let same : record w { billing = db } ≡ w' = ground arith in
    subst IsSound same (others-IsSound w db w.jobs v)

fail_and_refund-IsSound :
    (id : ℕ) (reason : ConversionFailureReason) (now entry_id : ℕ) (w : World) (b : Bool)
    (w' : World)
    → fail_and_refund id reason now entry_id w ≡ done (b, w')
    → IsSound w
    → IsSound w'
unfolding fail_and_refund
fail_and_refund-IsSound id reason now entry_id w b w' h v =
    refund_charge-IsSound id now entry_id (mark_failed id reason now w).0
      (mark_failed id reason now w).1 b w' h (mark_failed-IsSound id reason now w v)

pub Step-IsConsistent : {w w' : World} → Step w w' → IsConsistent w → IsConsistent w'
Step-IsConsistent {w} (launches launching tier c q) v =
    commits IsConsistent (reserve_and_insert launching tier c) w
      (λ r w' h.
        let l = reserve_and_insert-Launched launching tier c w r w' h in
        record {
          sound = Launched-IsSound launching tier c w w' l q v.sound;
          reserved = Launched-IsReserved launching tier c w w' l v.reserved;
        })
      v
Step-IsConsistent {w} (prepares id at) v = record {
  sound = mark_preparing-IsSound id at w v.sound;
  reserved = mark_preparing-IsReserved id at w v.reserved;
}
Step-IsConsistent {w} (plans id segments parts at) v =
    commits IsConsistent (complete_preparation id segments parts at) w
      (λ b w' h. record {
        sound = complete_preparation-IsSound id segments parts at w b w' h v.sound;
        reserved = complete_preparation-IsReserved id segments parts at w b w' h v.reserved;
      })
      v
Step-IsConsistent {w} (speaks id index audio at) v = record {
  sound = complete_segment-IsSound id index audio at w v.sound;
  reserved = complete_segment-IsReserved id index audio at w v.reserved;
}
Step-IsConsistent {w} (concludes id at) v = record {
  sound = complete_if_all-IsSound id at w v.sound;
  reserved = complete_if_all-IsReserved id at w v.reserved;
}
Step-IsConsistent {w} (fails id reason now entry_id) v =
    commits IsConsistent (fail_and_refund id reason now entry_id) w
      (λ b w' h. record {
        sound = fail_and_refund-IsSound id reason now entry_id w b w' h v.sound;
        reserved =
            fail_and_refund-IsReserved id reason now entry_id w b w' h v.sound.one_conversion
              v.reserved;
      })
      v
Step-IsConsistent {w} (delivers id index part at) v = record {
  sound = complete_part-IsSound id index part at w v.sound;
  reserved = complete_part-IsReserved id index part at w v.reserved;
}
Step-IsConsistent {w} (readies id at) v = record {
  sound = mark_ready-IsSound id at w v.sound;
  reserved = mark_ready-IsReserved id at w v.reserved;
}
Step-IsConsistent {w} (enqueues job) v = record {
  sound = others-IsSound w w.billing _ v.sound;
  reserved = unrelated-IsReserved w _ refl refl v.reserved;
}
Step-IsConsistent {w} (buys input now id) v =
    with_transaction_keeps (λ db. IsConsistent (record w { billing = db }))
      (grant_offer input now id) w.billing
      (λ r db h. record {
        sound = others-IsSound w db w.jobs v.sound;
        reserved =
            unrelated-IsReserved w (record w { billing = db }) refl
              (grant_offer-reservations input now id w.billing r db h) v.reserved;
      })
      v

pub Reaches-IsConsistent : {w w' : World} → Reaches w w' → IsConsistent w → IsConsistent w'
Reaches-IsConsistent here v = v
Reaches-IsConsistent (then_ s h) v = Reaches-IsConsistent h (Step-IsConsistent s v)

pub empty-IsConsistent : (offers : List Offer) → IsConsistent (empty_world offers)
empty-IsConsistent offers = record {
  sound = record {
    one_conversion = λ id. tt;
    one_active = λ d t r. tt;
    whole = tt;
    owned_segments = tt;
    owned_parts = tt;
  };
  reserved = record { reserved = tt; known = tt };
}

-- From empty tables, however launches, workers, sweeps and purchases follow each other: no two
-- conversions have one identifier, no document, voice and revision has two conversions that have
-- not failed, a conversion that is queued or in preparation has no segments and no parts, one
-- that is synthesized or ready has the audio of each of its segments, one that is ready has all
-- its parts assembled, and every segment and part has its conversion.
pub Reaches-IsSound : (offers : List Offer) (w : World) → Reaches (empty_world offers) w → IsSound w
Reaches-IsSound offers w h = (Reaches-IsConsistent h (empty-IsConsistent offers)).sound

-- From empty tables, however launches, workers, sweeps and purchases follow each other: every
-- conversion has its reservation of units in billing, under its identifier, for its owner and for
-- the characters it has reserved, and that reservation has given nothing back unless the
-- conversion has failed; and every reservation has its conversion.
pub Reaches-IsReserved :
    (offers : List Offer) (w : World) → Reaches (empty_world offers) w → IsReserved w
Reaches-IsReserved offers w h = (Reaches-IsConsistent h (empty-IsConsistent offers)).reserved
