-- ===== src/Payment/Limits.antt =====
-- When a request makes a new payment.
use voxkivre_backend.Prelude.{
  ℕ, ◌≡◌, ◌<◌, ◌-◌, ◌==◌, ltb, leb, ◌&&◌, ◌||◌, refl, sym, ap, subst, ◌∙◌, ◌⊎◌, inl, inr, Bool,
  true, false, Bool-cases, List, [], ◌∷◌, length, select, exists, Option, none, some, Outcome, done,
  thrown, arith,
}
use voxkivre_backend.Billing.Offers.{Offer}
use voxkivre_backend.Payment.Status.{PaymentStatus, same_status, Payment, PaymentRow}
use voxkivre_backend.Payment.Store.{World, is_some_id, find_by_idempotency_key}
use voxkivre_backend.Payment.Policy.{
  AttemptRefusal, AttemptCounts, max_attempts_per_user_per_hour, max_attempts_per_phone_per_day,
  attempt_windows, attempt_refusal_for, of_user, of_phone, latest, id_of_row, count_attempts,
}
use voxkivre_backend.Payment.Initiate.{
  Services, Fresh, Request, find_offer, unless_refused, unless_in_flight, for_offer, unless_known,
  initiate_checked,
}

-- The attempts that the table shows at the time of the request.
abbrev pub counts_for : Request → Fresh → World → AttemptCounts
counts_for r fresh w = count_attempts r.user_id r.phone_hmac (attempt_windows fresh.now) w.payments

-- The attempts that the rules speak of, read off the whole table.
abbrev pub started_in_flight : (user now : ℕ) → PaymentRow → Bool
started_in_flight user now row =
    is_some_id row.user_id user
    && (same_status row.status PaymentStatus.pending && ltb (now - 900_000) row.created_at)

abbrev pub of_last_hour : (user now : ℕ) → PaymentRow → Bool
of_last_hour user now row = is_some_id row.user_id user && leb (now - 3_600_000) row.created_at

abbrev pub of_last_day : (phone_hmac now : ℕ) → PaymentRow → Bool
of_last_day phone_hmac now row =
    row.phone_hmac == phone_hmac && leb (now - 86_400_000) row.created_at

-- The request is for an offer on sale and within every limit.
pub record IsAdmitted (r : Request) (fresh : Fresh) (w : World) : Type 0 where
  pub offer : Offer
  pub on_sale : find_offer r.offer_code w.billing ≡ done (some offer)
  pub none_in_flight : exists (started_in_flight r.user_id fresh.now) w.payments ≡ false
  pub user_below : length (select (of_last_hour r.user_id fresh.now) w.payments) < 5
  pub phone_below : length (select (of_last_day r.phone_hmac fresh.now) w.payments) < 3

-- What is selected from a selection that keeps it.
select-select :
    (p q : PaymentRow → Bool) (rows : List PaymentRow)
    → ((row : PaymentRow) → p row ≡ true → q row ≡ true)
    → select p (select q rows) ≡ select p rows
select-select p q [] h = refl
select-select p q (x ∷ xs) h = ground (arith, h x, select-select p q xs h)

select-none :
    (p : PaymentRow → Bool) (rows : List PaymentRow)
    → id_of_row (latest (select p rows)) ≡ none
    → exists p rows ≡ false
select-none p [] h = refl
select-none p (x ∷ xs) h = elim (Bool-cases (p x)) [
  | inl e ↦ absurd (ground arith)
  | inr e ↦ ground (arith, select-none p xs)
]

-- The one read of the attempts counts those of the whole table.
module _ (r : Request) (fresh : Fresh) (w : World) where
  abbrev read_rows : PaymentRow → Bool
  read_rows row =
      of_user r.user_id (attempt_windows fresh.now).user_since row
      || of_phone r.phone_hmac (attempt_windows fresh.now).phone_since row

  counts-in_flight :
      (counts_for r fresh w).in_flight_payment_id ≡ none
      → exists (started_in_flight r.user_id fresh.now) w.payments ≡ false
  unfolding count_attempts
  counts-in_flight h = select-none (started_in_flight r.user_id fresh.now) w.payments (
      ap (λ rows. id_of_row (latest rows))
        (sym (
          select-select (started_in_flight r.user_id fresh.now) read_rows w.payments
            (λ row k. ground arith)))
      ∙ h)

  counts-user :
      (counts_for r fresh w).user_attempts_last_hour
      ≡ length (select (of_last_hour r.user_id fresh.now) w.payments)
  unfolding count_attempts
  counts-user = ap length (
      select-select (of_last_hour r.user_id fresh.now) read_rows w.payments (λ row k. ground arith))

  counts-phone :
      (counts_for r fresh w).phone_attempts_last_day
      ≡ length (select (of_last_day r.phone_hmac fresh.now) w.payments)
  unfolding count_attempts
  counts-phone = ap length (
      select-select (of_last_day r.phone_hmac fresh.now) read_rows w.payments
        (λ row k. ground arith))

attempt_refusal_for-none :
    (c : AttemptCounts)
    → attempt_refusal_for c ≡ none
    → (c.user_attempts_last_hour < max_attempts_per_user_per_hour)
      × (c.phone_attempts_last_day < max_attempts_per_phone_per_day)
unfolding attempt_refusal_for
attempt_refusal_for-none c h = (ground arith, ground arith)

module _ (s : Services) (r : Request) (fresh : Fresh) (w : World) where
  refused-cases :
      (offer : Offer) (o : Option AttemptRefusal)
      → attempt_refusal_for (counts_for r fresh w) ≡ o
      → (counts_for r fresh w).in_flight_payment_id ≡ none
      → find_offer r.offer_code w.billing ≡ done (some offer)
      → ((unless_refused s r offer fresh w o).1 ≡ w) ⊎ IsAdmitted r fresh w
  refused-cases offer (some x) e i f = inl refl
  refused-cases offer none e i f =
      let (u, p) = attempt_refusal_for-none (counts_for r fresh w) e in
      inr (record {
        offer = offer;
        on_sale = f;
        none_in_flight = counts-in_flight r fresh w i;
        user_below = subst (λ n. n < 5) (counts-user r fresh w) u;
        phone_below = subst (λ n. n < 3) (counts-phone r fresh w) p;
      })

  in_flight-cases :
      (offer : Offer) (o : Option ℕ)
      → (counts_for r fresh w).in_flight_payment_id ≡ o
      → find_offer r.offer_code w.billing ≡ done (some offer)
      → ((unless_in_flight s r offer fresh w (counts_for r fresh w) o).1 ≡ w) ⊎ IsAdmitted r fresh w
  in_flight-cases offer (some x) e f = inl refl
  in_flight-cases offer none e f =
      refused-cases offer (attempt_refusal_for (counts_for r fresh w)) refl e f

  for_offer-cases :
      (o : Outcome (Option Offer))
      → find_offer r.offer_code w.billing ≡ o
      → ((for_offer s r fresh w o).1 ≡ w) ⊎ IsAdmitted r fresh w
  for_offer-cases (thrown f) e = inl refl
  for_offer-cases (done none) e = inl refl
  for_offer-cases (done (some offer)) e =
      in_flight-cases offer (counts_for r fresh w).in_flight_payment_id refl e

  known-cases :
      (o : Option Payment)
      → find_by_idempotency_key r.user_id r.key w.payments ≡ o
      → o ≡ none
      → ((unless_known s r fresh w o).1 ≡ w) ⊎ IsAdmitted r fresh w
  known-cases (some p) e n = absurd (cc)
  known-cases none e n = for_offer-cases (find_offer r.offer_code w.billing) refl

  -- A request under a key that the user has not used yet either changes nothing, or it is for an
  -- offer on sale, with no payment of the user in flight (less than 15 minutes old), fewer than 5
  -- attempts of the user in the last hour and fewer than 3 for the number in the last day.
  pub initiate_checked-limits :
      find_by_idempotency_key r.user_id r.key w.payments ≡ none
      → ((initiate_checked s r fresh w).1 ≡ w) ⊎ IsAdmitted r fresh w
  unfolding initiate_checked
  initiate_checked-limits h =
      known-cases (find_by_idempotency_key r.user_id r.key w.payments) refl h
