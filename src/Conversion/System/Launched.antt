-- ===== src/Conversion/System/Launched.antt =====
-- A launch writes the reservation and the conversion together.
use voxkivre_backend.Prelude.{
  ℕ, ◌==◌, ◌≡◌, refl, sym, ap, ◌∙◌, subst, false, inl, inr, List, ◌∷◌, exists, All, All-map,
  All-both, All-holds, All_of_not_exists, done, >>=-eq-done, Result, ok, err, arith,
}
use voxkivre_backend.Billing.Units.{VoiceTier}
use voxkivre_backend.Billing.Store.{Db, QuotaReservation, reservation_key}
use voxkivre_backend.Billing.UnitsLedger.{UnitsReservation}
use voxkivre_backend.Billing.ReserveQuota.{ReserveError, reserve_quota}
use voxkivre_backend.Billing.System.Reservations.{IsFor, rows_of, reserve_quota-reservations}
use voxkivre_backend.Conversion.Status.{queued, Conversion}
use voxkivre_backend.Conversion.Store.{World, conversion_key, insert}
use voxkivre_backend.Conversion.StartConversion.{
  Launching, quota_input, insert_if_reserved, reserve_and_insert,
}
use voxkivre_backend.Conversion.System.Sound.{HasConversion, IsSound, others-IsSound}
use voxkivre_backend.Conversion.System.Planned.{insert-done, insert-IsSound}
use voxkivre_backend.Conversion.System.Reserved.{HasReservation, IsReserved, unrelated-IsReserved}

-- What the callback of a launch has done when it returns.
pub data Launched (launching : Launching) (tier : VoiceTier) (c : Conversion) (w w' : World)
    : Type 0 where
  refused :
      (e : ReserveError) (db : Db)
      → reserve_quota launching.policy
          (quota_input c tier)
          launching.now
          launching.entry_id
          w.billing
        ≡ done (err e, db)
      → record w { billing = db } ≡ w'
      → Launched launching tier c w w'
  inserted :
      (r : UnitsReservation) (db : Db) (rows : List Conversion)
      → reserve_quota launching.policy
          (quota_input c tier)
          launching.now
          launching.entry_id
          w.billing
        ≡ done (ok r, db)
      → insert c w.conversions ≡ done rows
      → record w { billing = db; conversions = rows } ≡ w'
      → Launched launching tier c w w'

pub reserve_and_insert-Launched :
    (launching : Launching) (tier : VoiceTier) (c : Conversion) (w : World)
    (r : Result (Unit {0}) ReserveError) (w' : World)
    → reserve_and_insert launching tier c w ≡ done (r, w')
    → Launched launching tier c w w'
unfolding reserve_and_insert
reserve_and_insert-Launched launching tier c w r w' h =
    let ((reserved, db), e, k) =
      >>=-eq-done
        (reserve_quota launching.policy (quota_input c tier) launching.now launching.entry_id
          w.billing)
        _ h in
    go reserved db e k
  where
    go :
        (reserved : Result UnitsReservation ReserveError) (db : Db)
        → reserve_quota launching.policy
            (quota_input c tier)
            launching.now
            launching.entry_id
            w.billing
          ≡ done (reserved, db)
        → insert_if_reserved c reserved (record w { billing = db }) ≡ done (r, w')
        → Launched launching tier c w w'
    go (err e) db k h = refused e db k (ground arith)
    go (ok x) db k h =
        let (rows, i, j) = >>=-eq-done (insert c w.conversions) _ h in
        inserted x db rows k i (ground arith)

pub Launched-IsSound :
    (launching : Launching) (tier : VoiceTier) (c : Conversion) (w w' : World)
    → Launched launching tier c w w'
    → c.status ≡ queued
    → IsSound w
    → IsSound w'
Launched-IsSound launching tier c w w' (refused e db k same) q v =
    subst IsSound same (others-IsSound w db w.jobs v)
Launched-IsSound launching tier c w w' (inserted r db rows k i same) q v =
    subst IsSound same
      (insert-IsSound c (record w { billing = db }) rows q i (others-IsSound w db w.jobs v))

-- A new reservation in front of the others is not that of a conversion that was there.
HasReservation-behind :
    (row : QuotaReservation) (rows : List QuotaReservation) (x : Conversion)
    → conversion_key row.reservation_id x ≡ false
    → HasReservation rows x
    → HasReservation (row ∷ rows) x
HasReservation-behind row rows x other (r, found, u, n, o) = (r, ground arith, u, n, o)

new-IsReserved :
    (tier : VoiceTier) (c : Conversion) (w : World) (db : Db) (row : QuotaReservation)
    → rows_of db ≡ row ∷ rows_of w.billing
    → IsFor (quota_input c tier) row
    → exists (conversion_key c.id) w.conversions ≡ false
    → IsReserved w
    → IsReserved (record w { billing = db; conversions = c ∷ w.conversions })
new-IsReserved tier c w db row e f fresh v =
    let own : HasReservation (row ∷ rows_of w.billing) c =
      (row, ground (arith, f.id), f.user, f.chars, (λ _. f.open_)) in
    let others =
      All-map _ _ w.conversions
        (λ x (other, h).
          HasReservation-behind row (rows_of w.billing) x (ap (λ i. x.id == i) f.id ∙ other) h)
        (All-both _ _ w.conversions (All_of_not_exists (conversion_key c.id) w.conversions fresh)
          v.reserved) in
    let there : HasConversion (c ∷ w.conversions) row.reservation_id = ground (arith, f.id) in
    let wider = λ (j : ℕ) (h : HasConversion w.conversions j).
      let k : HasConversion (c ∷ w.conversions) j = ground arith in k in
    record {
      reserved = subst (λ x. All (HasReservation x) (c ∷ w.conversions)) (sym e) (own, others);
      known =
          subst (All (λ (r : QuotaReservation). HasConversion (c ∷ w.conversions) r.reservation_id))
            (sym e)
            (there, All-map _ _ (rows_of w.billing) (λ r h. wider r.reservation_id h) v.known);
    }

pub Launched-IsReserved :
    (launching : Launching) (tier : VoiceTier) (c : Conversion) (w w' : World)
    → Launched launching tier c w w'
    → IsReserved w
    → IsReserved w'
Launched-IsReserved launching tier c w w' (refused e db k same) v =
    subst IsReserved same
      (elim (reserve_quota-reservations _ _ launching.now launching.entry_id w.billing _ db k) [
        | inl (kept, _) ↦ unrelated-IsReserved w (record w { billing = db }) refl kept v
        | inr (row, _, _, (x, granted), _) ↦ absurd (cc)
      ])
Launched-IsReserved launching tier c w w' (inserted r db rows k i same) v =
    let ins = insert-done c w.conversions rows i in
    subst IsReserved same (
      subst (λ x. IsReserved (record w { billing = db; conversions = x })) (sym ins.result)
        (elim (reserve_quota-reservations _ _ launching.now launching.entry_id w.billing _ db k) [
          | inl (_, inl (e, denied)) ↦ absurd (cc)
          | inl (_, inr (row, found, is_id)) ↦
              let there =
                All-holds (λ (y : QuotaReservation). HasConversion w.conversions y.reservation_id)
                  (reservation_key c.id) (rows_of w.billing) row v.known found in
              let own : HasConversion w.conversions c.id =
                subst (HasConversion w.conversions) is_id there in
              absurd (ground (arith, ins.fresh))
          | inr (row, e, f, _, _) ↦ new-IsReserved tier c w db row e f ins.fresh v
        ]))
