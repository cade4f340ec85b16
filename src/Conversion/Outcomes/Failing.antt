-- ===== src/Conversion/Outcomes/Failing.antt =====
-- A conversion fails once (fail-conversion.use-case.ts).
use voxkivre_backend.Prelude.{
  ℕ, ◌≡◌, refl, ap, ◌∙◌, subst, Bool, true, false, Bool-cases, inl, inr, List, Option, none, some,
  find, update-none, exists, AtMostOne, All-map, find_of_not_exists, not_exists_of_All, Outcome,
  done, thrown, committed, >>=-eq-done, arith,
}
use voxkivre_backend.Billing.RefundQuota.{refund_quota}
use voxkivre_backend.Conversion.Status.{Conversion, ConversionFailureReason, in_progress}
use voxkivre_backend.Conversion.Store.{
  World, FailedConversionCharge, conversion_key, in_status, failed_row, charge_of, consumed_chars,
  mark_failed,
}
use voxkivre_backend.Conversion.FailConversion.{
  refund_of, refund_charge, fail_and_refund, fail_conversion,
}
use voxkivre_backend.Conversion.System.Reserved.{marked_failed-all}

-- Nothing is marked where no row of the conversion is in progress.
fail_and_refund-idle :
    (id : ℕ) (reason : ConversionFailureReason) (now entry_id : ℕ) (w : World)
    → exists (in_status id in_progress) w.conversions ≡ false
    → fail_and_refund id reason now entry_id w ≡ done (false, w)
unfolding fail_and_refund mark_failed
fail_and_refund-idle id reason now entry_id w e =
    let found = find_of_not_exists (in_status id in_progress) w.conversions e in
    let same = update-none (in_status id in_progress) (failed_row reason now) w.conversions e in
    let moved : refund_charge id now entry_id
          (charge_of id w (find (in_status id in_progress) w.conversions))
          (mark_failed id reason now w).1
        ≡ done (false, (mark_failed id reason now w).1) =
      ap (λ o. refund_charge id now entry_id (charge_of id w o) (mark_failed id reason now w).1)
        found in
    moved ∙ ap (λ (cs : List Conversion). done (false, record w { conversions = cs })) same

module _ (id : ℕ) (reason : ConversionFailureReason) (now entry_id : ℕ) (w : World)
    (one : AtMostOne (conversion_key id) w.conversions) where
  fail_and_refund-true :
      (w' : World)
      → fail_and_refund id reason now entry_id w ≡ done (true, w')
      → exists (in_status id in_progress) w'.conversions ≡ false
  unfolding fail_and_refund mark_failed
  fail_and_refund-true w' h = go (find (in_status id in_progress) w.conversions) refl h
    where
      go :
          (found : Option Conversion)
          → find (in_status id in_progress) w.conversions ≡ found
          → refund_charge id now entry_id (charge_of id w found) (mark_failed id reason now w).1
            ≡ done (true, w')
          → exists (in_status id in_progress) w'.conversions ≡ false
      go none e k = absurd (ground arith)
      go (some c) e k =
          let charge : FailedConversionCharge = record {
            reserved_chars = c.reserved_chars;
            consumed_chars = consumed_chars id w.segments;
          } in
          let w₁ = (mark_failed id reason now w).1 in
          let ((given, db), e₁, e₂) =
            >>=-eq-done (refund_quota id (refund_of charge) now entry_id w₁.billing) _ k in
          let same : w₁.conversions ≡ w'.conversions = ground arith in
          subst (λ cs. exists (in_status id in_progress) cs ≡ false) same
            (not_exists_of_All (in_status id in_progress) w₁.conversions (
              All-map _ _ w₁.conversions
                (λ x h. elim (Bool-cases (conversion_key id x)) [
                  | inl i ↦ let is_failed = h i in ground arith
                  | inr i ↦ ground arith
                ])
                (marked_failed-all id reason now w c one e)))

  -- Once a call has made a conversion fail, with its refund, another call for it, at any time and
  -- for any reason, answers false and writes nothing: nothing is refunded twice.
  pub fail_conversion-once :
      (w' : World)
      → fail_conversion id reason now entry_id w ≡ (done true, w')
      → (reason' : ConversionFailureReason) (now' entry_id' : ℕ)
      → fail_conversion id reason' now' entry_id' w' ≡ (done false, w')
  unfolding fail_conversion
  fail_conversion-once w' h reason' now' entry_id' =
      go (fail_and_refund id reason now entry_id w) refl h
    where
      go :
          (o : Outcome (Bool × World))
          → fail_and_refund id reason now entry_id w ≡ o
          → committed w o ≡ (done true, w')
          → fail_conversion id reason' now' entry_id' w' ≡ (done false, w')
      go (thrown x) e k = absurd (ground arith)
      go (done (b, w₂)) e k =
          let is_true : b ≡ true = ground arith in
          let same : w₂ ≡ w' = ground arith in
          let idle = fail_and_refund-true w' (
            e
            ∙ ap (λ (x : Bool). done (x, w₂)) is_true
            ∙ ap (λ (x : World). done (true, x)) same) in
          ap (committed w') (fail_and_refund-idle id reason' now' entry_id' w' idle)
