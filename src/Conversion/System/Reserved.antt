-- ===== src/Conversion/System/Reserved.antt =====
-- The reservations of units and the conversions: each has the other.
use voxkivre_backend.Prelude.{
  ℕ, ◌==◌, ◌≡◌, refl, sym, ap, ◌∙◌, subst, Bool, true, false, Bool-cases, inl, inr, List, Option,
  none, some, find, update, exists-update, find-update, find-holds, exists_of_find, AtMostOne, All,
  All-both, All-narrowed, All-map, All-update, done, >>=-eq-done, arith, min,
}
use voxkivre_backend.Billing.Store.{Db, QuotaReservation, reservation_key}
use voxkivre_backend.Billing.UnitsLedger.{unrefunded_key}
use voxkivre_backend.Billing.RefundQuota.{refund_quota}
use voxkivre_backend.Billing.RefundQuota.Cases.{marked_row}
use voxkivre_backend.Billing.System.Reservations.{rows_of, refund_quota-reservations}
use voxkivre_backend.Conversion.Status.{
  failed, same_status, in_progress, Conversion, ConversionFailureReason,
}
use voxkivre_backend.Conversion.Store.{
  World, FailedConversionCharge, conversion_key, in_status, failed_row, charge_of, consumed_chars,
  mark_failed,
}
use voxkivre_backend.Conversion.FailConversion.{refund_of, refund_charge, fail_and_refund}
use voxkivre_backend.Conversion.System.Sound.{HasConversion}

-- The reservation under the identifier of the conversion, for its owner and its characters; it is
-- given back, in part or whole, only once the conversion has failed.
abbrev pub HasReservation : List QuotaReservation → Conversion → Type 0
HasReservation reservations c =
    (r : QuotaReservation) × (find (reservation_key c.id) reservations ≡ some r)
    × (r.user_id ≡ c.owner_id)
    × (r.chars ≡ c.reserved_chars)
    × (same_status c.status failed ≡ false → r.refunded_at ≡ none)

pub record IsReserved (w : World) : Type 0 where
  pub reserved : All (HasReservation (rows_of w.billing)) w.conversions
  pub known :
      All
        (λ (r : QuotaReservation). HasConversion w.conversions r.reservation_id)
        (rows_of w.billing)

-- A statement on conversions that keeps what a reservation is for, and revives no conversion.
pub conversions-IsReserved :
    (w : World) (q : Conversion → Bool) (f : Conversion → Conversion)
    → ((c : Conversion) → (f c).id ≡ c.id)
    → ((c : Conversion) → (f c).owner_id ≡ c.owner_id)
    → ((c : Conversion) → (f c).reserved_chars ≡ c.reserved_chars)
    → ((c : Conversion)
        → q c ≡ true
        → same_status (f c).status failed ≡ false
        → same_status c.status failed ≡ false)
    → IsReserved w
    → IsReserved (record w { conversions = update q f w.conversions })
conversions-IsReserved w q f id owner chars alive v = record {
  reserved =
      All-update _ _ q f w.conversions
        (λ c e (r, found, u, n, o). (
          r,
          ap (λ i. find (reservation_key i) (rows_of w.billing)) (id c) ∙ found,
          u ∙ sym (owner c),
          n ∙ sym (chars c),
          λ k. o (alive c e k),
        ))
        (λ c e h. h) v.reserved;
  known =
      All-map _ _ (rows_of w.billing)
        (λ r h.
          exists-update q (conversion_key r.reservation_id) f w.conversions
            (λ c. ap (λ i. i == r.reservation_id) (id c))
          ∙ h)
        v.known;
}

-- A statement that leaves conversions and reservations alone.
pub unrelated-IsReserved :
    (w w' : World)
    → w'.conversions ≡ w.conversions
    → rows_of w'.billing ≡ rows_of w.billing
    → IsReserved w
    → IsReserved w'
unrelated-IsReserved w w' c r v = record {
  reserved =
      subst (λ x. All (HasReservation (rows_of w'.billing)) x) (sym c)
        (subst (λ x. All (HasReservation x) w.conversions) (sym r) v.reserved);
  known =
      subst
        (λ x. All (λ (y : QuotaReservation). HasConversion x y.reservation_id) (rows_of w'.billing))
        (sym c)
        (subst (λ x. All (λ (y : QuotaReservation). HasConversion w.conversions y.reservation_id) x)
          (sym r) v.known);
}

module _ (id chars now : ℕ) (w : World) (rows : List QuotaReservation)
    (same : rows_of w.billing ≡ rows)
    (failed_all : All
      (λ c. conversion_key id c ≡ true → same_status c.status failed ≡ true)
      w.conversions)
    (v : IsReserved w) where
  -- A refund marks the reservation of a conversion that has failed.
  marked : List QuotaReservation
  marked = update (unrefunded_key id) (marked_row chars now) rows

  HasReservation-marked :
      (c : Conversion)
      → (conversion_key id c ≡ true → same_status c.status failed ≡ true)
      → HasReservation rows c
      → HasReservation marked c
  unfolding marked
  HasReservation-marked c k (r, found, u, n, o) =
      let e =
        find-update (reservation_key c.id) (unrefunded_key id) (marked_row chars now) rows r
          (λ y. refl) found in
      let is_row = find-holds (reservation_key c.id) rows found in
      elim (Bool-cases (unrefunded_key id r)) [
        | inl y ↦
            let is_failed : same_status c.status failed ≡ true = k (ground arith) in
            (marked_row chars now r, rw y at e, u, n, (λ z. absurd (cc)))
        | inr y ↦ (r, rw y at e, u, n, o)
      ]

  marked-IsReserved :
      (billing : Db) → rows_of billing ≡ marked → IsReserved (record w { billing = billing })
  unfolding marked
  marked-IsReserved billing e = record {
    reserved =
        subst (λ x. All (HasReservation x) w.conversions) (sym e)
          (All-map _ _ w.conversions (λ c (h, k). HasReservation-marked c k h)
            (All-both _ _ w.conversions
              (subst (λ x. All (HasReservation x) w.conversions) same v.reserved) failed_all));
    known =
        subst (All (λ (r : QuotaReservation). HasConversion w.conversions r.reservation_id)) (sym e)
          (All-update _ _ (unrefunded_key id) (marked_row chars now) rows (λ r k h. h) (λ r k h. h)
            (subst (All (λ (r : QuotaReservation). HasConversion w.conversions r.reservation_id))
              same v.known));
  }

pub mark_failed-IsReserved :
    (id : ℕ) (reason : ConversionFailureReason) (at : ℕ) (w : World)
    → IsReserved w
    → IsReserved (mark_failed id reason at w).1
unfolding mark_failed
mark_failed-IsReserved id reason at w v =
    conversions-IsReserved w (in_status id in_progress) (failed_row reason at) (λ c. refl)
      (λ c. refl) (λ c. refl) (λ c e k. absurd (cc)) v

-- Once a conversion in progress has been found and marked, every row of it has failed.
pub marked_failed-all :
    (id : ℕ) (reason : ConversionFailureReason) (at : ℕ) (w : World) (c : Conversion)
    → AtMostOne (conversion_key id) w.conversions
    → find (in_status id in_progress) w.conversions ≡ some c
    → All
        (λ c. conversion_key id c ≡ true → same_status c.status failed ≡ true)
        (mark_failed id reason at w).1.conversions
unfolding mark_failed
marked_failed-all id reason at w c one e =
    All-update _ _ (in_status id in_progress) (failed_row reason at) w.conversions (λ x k h i. refl)
      (λ x k h i. absurd (ground (arith, h i)))
      (All-narrowed (conversion_key id) (in_status id in_progress) w.conversions
        (λ x k. ground arith) one (exists_of_find (in_status id in_progress) w.conversions e))

pub fail_and_refund-IsReserved :
    (id : ℕ) (reason : ConversionFailureReason) (now entry_id : ℕ) (w : World) (b : Bool)
    (w' : World)
    → fail_and_refund id reason now entry_id w ≡ done (b, w')
    → ((i : ℕ) → AtMostOne (conversion_key i) w.conversions)
    → IsReserved w
    → IsReserved w'
unfolding fail_and_refund mark_failed marked
fail_and_refund-IsReserved id reason now entry_id w b w' h one v =
    go (find (in_status id in_progress) w.conversions) refl h
  where
    go :
        (found : Option Conversion)
        → find (in_status id in_progress) w.conversions ≡ found
        → refund_charge id now entry_id (charge_of id w found) (mark_failed id reason now w).1
          ≡ done (b, w')
        → IsReserved w'
    go none e k =
        let same : (mark_failed id reason now w).1 ≡ w' = ground arith in
        subst IsReserved same (mark_failed-IsReserved id reason now w v)
    go (some c) e k =
        let w₁ = (mark_failed id reason now w).1 in
        let v₁ = mark_failed-IsReserved id reason now w v in
        let charge : FailedConversionCharge = record {
          reserved_chars = c.reserved_chars;
          consumed_chars = consumed_chars id w.segments;
        } in
        let ((given, db), e₁, e₂) =
          >>=-eq-done (refund_quota id (refund_of charge) now entry_id w₁.billing) _ k in
        let same : record w₁ { billing = db } ≡ w' = ground arith in
        subst IsReserved same
          (elim (refund_quota-reservations id (refund_of charge) now entry_id w₁.billing given db
            e₁) [
              | inl kept ↦ unrelated-IsReserved w₁ (record w₁ { billing = db }) refl kept v₁
              | inr (row, is_id, e₃) ↦
                  marked-IsReserved id (min (refund_of charge) row.chars) now w₁
                    (rows_of w₁.billing) refl (marked_failed-all id reason now w c (one id) e) v₁ db
                    (e₃
                      ∙ ap
                          (λ i.
                            update (unrefunded_key i)
                              (marked_row (min (refund_of charge) row.chars) now)
                              (rows_of w₁.billing))
                          is_id)
            ])
