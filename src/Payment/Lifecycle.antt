-- ===== src/Payment/Lifecycle.antt =====
-- The life of the rows of `payments` (payment/domain/value-objects/payment-status.vo.ts).
pub mod Writes
pub mod Calls
pub mod UseCases
use voxkivre_backend.Prelude.{ℕ, ◌≡◌, refl, sym, ◌∙◌, ap, Bool, true, false, List, [], ◌∷◌, arith}
use voxkivre_backend.Payment.Store.{is_unset}
use voxkivre_backend.Payment.Status.{PaymentStatus, same_status, PaymentRow}

-- What a payment of the first status may have become later, itself included.
abbrev pub may_become : PaymentStatus → PaymentStatus → Bool
may_become PaymentStatus.pending t = true
may_become PaymentStatus.succeeded t = same_status PaymentStatus.succeeded t
may_become PaymentStatus.failed t = same_status PaymentStatus.failed t
may_become PaymentStatus.amount_mismatch t = same_status PaymentStatus.amount_mismatch t
may_become PaymentStatus.expired PaymentStatus.expired = true
may_become PaymentStatus.expired PaymentStatus.succeeded = true
may_become PaymentStatus.expired PaymentStatus.amount_mismatch = true
may_become PaymentStatus.expired PaymentStatus.pending = false
may_become PaymentStatus.expired PaymentStatus.failed = false

pub may_become_refl : (s : PaymentStatus) → may_become s s ≡ true
may_become_refl PaymentStatus.pending = refl
may_become_refl PaymentStatus.succeeded = refl
may_become_refl PaymentStatus.failed = refl
may_become_refl PaymentStatus.expired = refl
may_become_refl PaymentStatus.amount_mismatch = refl

may_become_trans :
    (s t u : PaymentStatus) → may_become s t ≡ true → may_become t u ≡ true → may_become s u ≡ true
may_become_trans s t u h k = ground arith

-- One row at two times: what it is a payment for does not change, nor the reference of the
-- provider once there is one; its status follows the life of a payment.
pub record IsLater (r r' : PaymentRow) : Type 0 where
  pub target : r'.target ≡ r.target
  pub reference :
      is_unset r.provider_reference ≡ false → r'.provider_reference ≡ r.provider_reference
  pub status : may_become r.status r'.status ≡ true

pub IsLater-refl : (r : PaymentRow) → IsLater r r
IsLater-refl r = record { target = refl; reference = λ e. refl; status = may_become_refl r.status }

IsLater-trans : {r s t : PaymentRow} → IsLater r s → IsLater s t → IsLater r t
IsLater-trans {r} {s} {t} h k = record {
  target = k.target ∙ h.target;
  reference = λ e. k.reference (ap is_unset (h.reference e) ∙ e) ∙ h.reference e;
  status = may_become_trans r.status s.status t.status h.status k.status;
}

-- The table at two times: no row is lost, and rows were added.
pub data Evolves : List PaymentRow → List PaymentRow → Type 0 where
  finished : Evolves [] []
  kept :
      {r r' : PaymentRow} {rs rs' : List PaymentRow}
      → IsLater r r'
      → Evolves rs rs'
      → Evolves (r ∷ rs) (r' ∷ rs')
  added : (r' : PaymentRow) {rs rs' : List PaymentRow} → Evolves rs rs' → Evolves rs (r' ∷ rs')

pub Evolves-refl : (rs : List PaymentRow) → Evolves rs rs
Evolves-refl [] = finished
Evolves-refl (r ∷ rs) = kept (IsLater-refl r) (Evolves-refl rs)

pub Evolves-trans : {rs ss ts : List PaymentRow} → Evolves rs ss → Evolves ss ts → Evolves rs ts
Evolves-trans h finished = h
Evolves-trans h (added r k) = added r (Evolves-trans h k)
Evolves-trans (added s h) (kept l k) = added _ (Evolves-trans h k)
Evolves-trans (kept i h) (kept l k) = kept (IsLater-trans i l) (Evolves-trans h k)
