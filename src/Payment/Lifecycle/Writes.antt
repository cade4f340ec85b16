-- ===== src/Payment/Lifecycle/Writes.antt =====
-- Each statement on `payments` respects the life of a payment.
use voxkivre_backend.Prelude.{
  ℕ, ◌≡◌, refl, sym, subst, ◌⊎◌, inl, inr, Bool, true, Bool-cases, List, [], ◌∷◌, Option, none,
  some, find, update, done, arith,
}
use voxkivre_backend.Payment.Status.{PaymentStatus, same_status, Payment, PaymentRow}
use voxkivre_backend.Payment.Store.{
  PaymentCompletion, status_of, row_of, in_status, completed_row, complete, insert, attach_to,
  unreferenced_key, attach_provider_reference,
}
use voxkivre_backend.Payment.Lifecycle.{
  may_become, IsLater, IsLater-refl, may_become_refl, Evolves, finished, kept, added, Evolves-refl,
}

pub update-Evolves :
    (p : PaymentRow → Bool) (f : PaymentRow → PaymentRow) (rows : List PaymentRow)
    → ((r : PaymentRow) → p r ≡ true → IsLater r (f r))
    → Evolves rows (update p f rows)
update-Evolves p f [] h = finished
update-Evolves p f (r ∷ rs) h = elim (Bool-cases (p r)) [
  | inl e ↦ rw e (kept (h r e) (update-Evolves p f rs h))
  | inr e ↦ rw e (kept (IsLater-refl r) (update-Evolves p f rs h))
]

in_status-eq : (s t : PaymentStatus) → same_status s t ≡ true → s ≡ t
in_status-eq PaymentStatus.pending PaymentStatus.pending h = refl
in_status-eq PaymentStatus.succeeded PaymentStatus.succeeded h = refl
in_status-eq PaymentStatus.failed PaymentStatus.failed h = refl
in_status-eq PaymentStatus.expired PaymentStatus.expired h = refl
in_status-eq PaymentStatus.amount_mismatch PaymentStatus.amount_mismatch h = refl
in_status-eq s t h = ground arith

pub complete-Evolves :
    (id : ℕ) (from : PaymentStatus) (c : PaymentCompletion) (at : ℕ) (rows : List PaymentRow)
    → may_become from (status_of c) ≡ true
    → Evolves rows (complete id from c at rows).1
unfolding complete
complete-Evolves id from c at rows h =
    update-Evolves (in_status id from) (completed_row c at) rows (λ r e. record {
      target = refl;
      reference = λ k. refl;
      status =
          let same : r.status ≡ from = in_status-eq r.status from (ground arith) in ground arith;
    })

pub attach_provider_reference-Evolves :
    (id reference at : ℕ) (rows : List PaymentRow) (b : Bool) (rows' : List PaymentRow)
    → attach_provider_reference id reference at rows ≡ done (b, rows')
    → Evolves rows rows'
unfolding attach_provider_reference
attach_provider_reference-Evolves id reference at rows b rows' h =
    attached (find (unreferenced_key id) rows) h
  where
    attached :
        (o : Option PaymentRow)
        → attach_to o id reference at rows ≡ done (b, rows')
        → Evolves rows rows'
    attached none h = subst (λ x. Evolves rows x) (ground arith) (Evolves-refl rows)
    attached (some row) h =
        let same : update (unreferenced_key id)
              (λ r. record r { provider_reference = some reference; updated_at = at }) rows
            ≡ rows' =
          ground arith in
        subst (λ x. Evolves rows x) same
          (update-Evolves (unreferenced_key id) _ rows (λ r e. record {
            target = refl;
            reference = λ k. absurd (ground arith);
            status = may_become_refl r.status;
          }))

pub insert-Evolves :
    (p : Payment) (rows : List PaymentRow) (b : Bool) (rows' : List PaymentRow)
    → insert p rows ≡ done (b, rows')
    → Evolves rows rows'
unfolding insert
insert-Evolves p rows b rows' h = elim (insert_cases) [
  | inl same ↦ subst (λ x. Evolves rows x) same (Evolves-refl rows)
  | inr same ↦ subst (λ x. Evolves rows x) (sym same) (added (row_of p) (Evolves-refl rows))
]
  where
    insert_cases : (rows ≡ rows') ⊎ (rows' ≡ row_of p ∷ rows)
    insert_cases = ground arith
