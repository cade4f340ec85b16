-- ===== src/Payment/System.antt =====
-- The payments and billing as one system: the statements that a call of the module runs, each of
-- them a step of its own, so that notifications, sweeps and requests may interleave between them.
pub mod Paid
pub mod Succeeds
pub mod Refines
pub mod Notified
use voxkivre_backend.Prelude.{
  ℕ, ◌≡◌, Bool, List, Option, some, none, Outcome, done, find, with_transaction,
}
use voxkivre_backend.Payment.Status.{
  PaymentStatus, pending, Target, Payment, PaymentRow, ConfirmationChannel, PaymentFailureCode,
}
use voxkivre_backend.Payment.Store.{
  World, PaymentCompletion, to_failed, to_amount_mismatch, to_expired, row_of, payment_key, insert,
  attach_provider_reference, complete,
}
use voxkivre_backend.Payment.Settler.{Stamps, succeed_in_transaction}
use voxkivre_backend.Billing.ReserveQuota.{QuotaPolicy}
use voxkivre_backend.Billing.System.{Call, step}

-- A payment that some call has read, now or earlier: the row may have another status since.
abbrev pub IsRead : Payment → World → Type 0
IsRead payment world =
    (row : PaymentRow) × (find (payment_key payment.id) world.payments ≡ some row)
    × (row.target ≡ (row_of payment).target)

-- A completion that needs no transaction with billing.
pub data IsPlain : PaymentCompletion → Type 0 where
  fails :
      (via : Option ConfirmationChannel) (code : PaymentFailureCode) → IsPlain (to_failed via code)
  flags : (via : ConfirmationChannel) → IsPlain (to_amount_mismatch via)
  expires : (code : Option PaymentFailureCode) → IsPlain (to_expired code)

pub data Step : World → World → Type 0 where
  inserts :
      {world : World} (payment : Payment) (b : Bool) (rows : List PaymentRow)
      → payment.status ≡ pending
      → insert payment world.payments ≡ done (b, rows)
      → Step world (record world { payments = rows })
  attaches :
      {world : World} (id reference at : ℕ) (b : Bool) (rows : List PaymentRow)
      → attach_provider_reference id reference at world.payments ≡ done (b, rows)
      → Step world (record world { payments = rows })
  completes :
      {world : World} (id : ℕ) (from : PaymentStatus) (c : PaymentCompletion) (at : ℕ)
      → IsPlain c
      → Step world (record world { payments = (complete id from c at world.payments).1 })
  succeeds :
      {world : World} (payment : Payment) (from : PaymentStatus) (via : ConfirmationChannel)
      (at : Stamps)
      → IsRead payment world
      → Step world (with_transaction (succeed_in_transaction payment from via at) world).1
  bills :
      {world : World} (policy : QuotaPolicy) (call : Call)
      → Step world (record world { billing = step policy world.billing call })

-- Any sequence of steps.
pub data Reaches : World → World → Type 0 where
  here : {world : World} → Reaches world world
  then_ :
      {world world' world'' : World}
      → Step world world'
      → Reaches world' world''
      → Reaches world world''
