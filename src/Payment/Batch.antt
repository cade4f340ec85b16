-- ===== src/Payment/Batch.antt =====
-- The whole sweep: `execute` of payment/application/use-cases/reconcile-pending-payments.use-case.ts.
-- The counts of its report are those of the list of outcomes.
use voxkivre_backend.Prelude.{ℕ, List, [], ◌∷◌, length, Outcome, done, thrown, Result}
use voxkivre_backend.Payment.Status.{Payment, ProviderTransaction}
use voxkivre_backend.Payment.Store.{World, list_pending_created_before}
use voxkivre_backend.Payment.Policy.{sweep_cutoff}
use voxkivre_backend.Payment.Settler.{PaymentUnavailable, Stamps}
use voxkivre_backend.Payment.Sweep.{ReconcileOutcome, reconcile}
use voxkivre_backend.Payment.Lifecycle.{Evolves-refl, Evolves-trans}
use voxkivre_backend.Payment.Lifecycle.Calls.{Follows}
use voxkivre_backend.Payment.Lifecycle.UseCases.{reconcile-Follows}

abbrev pub reconcile_batch_size : ℕ
reconcile_batch_size = 100

-- The clock while one payment is handled.
pub record Moment : Type 0 where
  pub stamps : Stamps
  pub checked_at : ℕ
  pub expired_at : ℕ

pub record ReconciliationReport : Type 0 where
  pub examined : ℕ
  pub outcomes : List ReconcileOutcome

abbrev pub counted :
    ReconcileOutcome
    → Outcome (List ReconcileOutcome) × World
    → Outcome (List ReconcileOutcome) × World
counted outcome (done outcomes, world) = (done (outcome ∷ outcomes), world)
counted outcome (thrown fault, world) = (thrown fault, world)

abbrev pub counted_with :
    (World → Outcome (List ReconcileOutcome) × World)
    → Outcome ReconcileOutcome × World
    → Outcome (List ReconcileOutcome) × World
counted_with rest (thrown fault, world) = (thrown fault, world)
counted_with rest (done outcome, world) = counted outcome (rest world)

abbrev pub as_report :
    (examined : ℕ) → Outcome (List ReconcileOutcome) × World → Outcome ReconciliationReport × World
as_report n (done outcomes, world) = (done (record { examined = n; outcomes = outcomes }), world)
as_report n (thrown fault, world) = (thrown fault, world)

module _ (get_transaction : ℕ → Result ProviderTransaction PaymentUnavailable)
    (clock : Payment → Moment) where
  -- One by one; an exception ends the sweep.
  unfoldable pub reconcile_each : List Payment → World → Outcome (List ReconcileOutcome) × World
  reconcile_each [] world = (done [], world)
  reconcile_each (p ∷ ps) world =
      counted_with (reconcile_each ps) (
        reconcile get_transaction p (clock p).stamps (clock p).checked_at (clock p).expired_at
          world)

  unfoldable pub reconcile_pending : (now : ℕ) → World → Outcome ReconciliationReport × World
  reconcile_pending now world =
      let pending =
        list_pending_created_before (sweep_cutoff now) reconcile_batch_size world.payments in
      as_report (length pending) (reconcile_each pending world)

  counted-Follows :
      (w : World) (x : ReconcileOutcome) (o : Outcome (List ReconcileOutcome) × World)
      → Follows w o.1
      → Follows w (counted x o).1
  counted-Follows w x (done xs, w') h = h
  counted-Follows w x (thrown f, w') h = h

  counted_with-Follows :
      (w : World) (rest : World → Outcome (List ReconcileOutcome) × World)
      (o : Outcome ReconcileOutcome × World)
      → ((w' : World) → Follows w' (rest w').1)
      → Follows w o.1
      → Follows w (counted_with rest o).1
  counted_with-Follows w rest (thrown f, w') k h = h
  counted_with-Follows w rest (done x, w') k h =
      counted-Follows w x (rest w') (Evolves-trans h (k w'))

  reconcile_each-Follows : (ps : List Payment) (w : World) → Follows w (reconcile_each ps w).1
  unfolding reconcile_each
  reconcile_each-Follows [] w = Evolves-refl w.payments
  reconcile_each-Follows (p ∷ ps) w =
      counted_with-Follows w (reconcile_each ps) _ (λ w'. reconcile_each-Follows ps w')
        (reconcile-Follows get_transaction p (clock p).stamps (clock p).checked_at
          (clock p).expired_at w)

  as_report-Follows :
      (w : World) (n : ℕ) (o : Outcome (List ReconcileOutcome) × World)
      → Follows w o.1
      → Follows w (as_report n o).1
  as_report-Follows w n (done xs, w') h = h
  as_report-Follows w n (thrown f, w') h = h

  -- A whole sweep, also one that an exception ends, loses no row of the payments; each keeps its
  -- target and its reference, and its status moves along the life of a payment.
  pub reconcile_pending-Follows : (now : ℕ) (w : World) → Follows w (reconcile_pending now w).1
  unfolding reconcile_pending
  reconcile_pending-Follows now w = as_report-Follows w _ _ (reconcile_each-Follows _ w)
