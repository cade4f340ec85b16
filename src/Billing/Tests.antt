-- ===== src/Billing/Tests.antt =====
-- The theorems on billing at concrete inputs.
use voxkivre_backend.Prelude.{
  ℕ, ◌≡◌, ◌≤◌, ◌<◌, ◌-◌, refl, ◌⊎◌, true, false, List, [], ◌∷◌, none, done, ok, err, AtMostOne,
  arith,
}
use voxkivre_backend.Billing.Units.{standard, natural, units_of, units_for_chars}
use voxkivre_backend.Billing.Allocation.{UnitsBySource, allocate, split_refund, usable_from}
use voxkivre_backend.Billing.Allocation.Greedy.{
  usable, IsDebit, total, greedy, minus, allocate_lem, split_refund-minus,
}
use voxkivre_backend.Billing.Offers.{Offer, pass, credits, grant_for}
use voxkivre_backend.Billing.Period.{period_at}
use voxkivre_backend.Billing.Store.{Db}
use voxkivre_backend.Billing.UnitsLedger.{
  UnitsReservation, find_reservation, lock_balances, record_reservation, insert_reservation,
  apply_to_sources, apply_to_free, apply_to_pass, apply_to_wallet, charge_pass, charge_wallet,
}
use voxkivre_backend.Billing.PurchaseLedger.{
  money_xaf, find_purchase, lock_for_purchase, insert_pass, credit_wallet, give_rights,
  record_purchase, find_by_code,
}
use voxkivre_backend.Billing.ReserveQuota.{
  QuotaPolicy, ReserveQuotaInput, book, reserve_new, reserve_in_transaction, reserve_quota,
}
use voxkivre_backend.Billing.ReserveQuota.Effect.{spendable, IsSpent, reserve_quota-IsSpent}
use voxkivre_backend.Billing.System.Replayed.{reserve_quota-replayed}
use voxkivre_backend.Billing.RefundQuota.{refund_reservation, refund_quota}
use voxkivre_backend.Billing.RefundQuota.Once.{refund_quota-once}
use voxkivre_backend.Billing.UnitsLedger.{record_refund, mark_refunded, give_sources_back}
use voxkivre_backend.Billing.GrantOffer.{
  GrantOfferInput, GrantOfferOutput, conclude, grant_new, grant_unless, grant_in_transaction,
  grant_found, grant_offer,
}
use voxkivre_backend.Billing.GrantOffer.Purchases.{IsBought, grant_offer-IsBought}
use voxkivre_backend.Billing.Conservation.Books.{IsBalanced}
use voxkivre_backend.Billing.System.{Call, reserves, refunds, grants, step, run, initial}
use voxkivre_backend.Billing.System.Balanced.{run-initial-IsBalanced}
use voxkivre_backend.Billing.System.Periods.{runs_at}
use voxkivre_backend.Billing.System.Chained.{run-one_pass}

abbrev policy : QuotaPolicy
policy = record { free_tier_units_per_month = 100; max_chars_per_conversion = 1000 }

abbrev pub offers : List Offer
offers =
    record { code = 1; price = 2000; units = 500; active = true; terms = pass 30 }
    ∷ record { code = 2; price = 500; units = 200; active = true; terms = credits }
    ∷ []

abbrev buys : (offer reference : ℕ) → GrantOfferInput
buys offer reference = record { user_id = 7; offer_code = offer; payment_reference = reference }

abbrev reads_a_book : ReserveQuotaInput
reads_a_book = record { reservation_id = 5; user_id = 7; chars = 150; tier = natural }

abbrev reads_a_page : ReserveQuotaInput
reads_a_page = record { reservation_id = 6; user_id = 7; chars = 120; tier = standard }

abbrev history : List Call
history =
    grants (buys 1 11) 1000 21
    ∷ grants (buys 2 12) 2000 22
    ∷ reserves reads_a_book 3000 23
    ∷ refunds 5 40 4000 24
    ∷ []

run-initial-IsBalanced_example : IsBalanced (run policy (initial offers) history)
run-initial-IsBalanced_example = run-initial-IsBalanced policy offers history

run-one_pass_example : AtMostOne (runs_at 7 5000) (run policy (initial offers) history).passes
run-one_pass_example = run-one_pass policy offers history 7 5000

abbrev plenty : UnitsBySource
plenty = record { free = 30; pass = 50; credits = 20 }

allocate_lem_example :
    ((90 ≤ total (usable standard plenty))
      × ((t : UnitsBySource) × (allocate 90 standard plenty ≡ done (ok t))
          × IsDebit 90 (usable standard plenty) t))
    ⊎ ((total (usable standard plenty) < 90)
        × (allocate 90 standard plenty
            ≡ done (
                err (record {
                  requested = 90;
                  tier = standard;
                  available = plenty;
                  usable = total (usable standard plenty);
                }))))
allocate_lem_example = allocate_lem 90 standard plenty (omega arith)

split_refund-minus_example :
    (r : UnitsBySource) × (split_refund plenty 25 ≡ done r)
    × (total r ≡ 25)
    × (minus plenty r ≡ greedy (total plenty - 25) plenty)
split_refund-minus_example = split_refund-minus plenty 25 (omega arith) (omega arith)

abbrev bought : Db
bought = run policy (initial offers) (grants (buys 2 12) 2000 22 ∷ [])

abbrev booked : UnitsReservation
booked = record {
  booking = record {
    reservation_id = 6;
    user_id = 7;
    period = 197001;
    tier = standard;
    chars = 120;
    pass_id = none;
    taken = record { free = 100; pass = 0; credits = 20 };
  };
  refunded = false;
}

abbrev after : Db
after = step policy bought (reserves reads_a_page 3000 23)

reserved : reserve_quota policy reads_a_page 3000 23 bought ≡ done (ok booked, after)
unfolding step run reserve_quota reserve_in_transaction reserve_new book find_reservation
    lock_balances period_at units_of units_for_chars allocate usable_from record_reservation
    insert_reservation apply_to_sources apply_to_free apply_to_pass apply_to_wallet charge_pass
    charge_wallet grant_offer find_by_code money_xaf grant_found grant_in_transaction grant_unless
    grant_new conclude grant_for find_purchase lock_for_purchase insert_pass credit_wallet
    give_rights record_purchase
reserved = refl

not_yet : find_reservation 6 bought ≡ done none
unfolding run step find_reservation grant_offer find_by_code money_xaf units_of grant_found
    grant_in_transaction grant_unless grant_new conclude grant_for find_purchase lock_for_purchase
    insert_pass credit_wallet give_rights record_purchase
not_yet = refl

reserve_quota-IsSpent_example :
    IsDebit 120 (usable standard (spendable policy 7 3000 bought)) booked.taken
    × IsSpent 7 (period_at 3000) none booked.taken bought after
reserve_quota-IsSpent_example =
    reserve_quota-IsSpent policy reads_a_page 3000 23 bought booked after reserved not_yet
      (run-initial-IsBalanced policy offers (grants (buys 2 12) 2000 22 ∷ []))

-- With a part of the reservation given back, and an offer bought, in between.
abbrev between : List Call
between = refunds 6 50 4000 24 ∷ grants (buys 1 13) 5000 26 ∷ []

reserve_quota-replayed_example :
    (again : UnitsReservation) × (again.booking ≡ booked.booking)
    × (reserve_quota policy reads_a_page 9000 25 (run policy after between)
        ≡ done (ok again, run policy after between))
    × (reserve_quota policy reads_a_page 9000 25 after ≡ done (ok booked, after))
reserve_quota-replayed_example =
    reserve_quota-replayed policy policy reads_a_page 3000 9000 23 25 between bought booked after
      reserved (omega arith)

abbrev refunded : Db
refunded = step policy after (refunds 6 50 4000 24)

given_back_once : refund_quota 6 50 4000 24 after ≡ done (true, refunded)
unfolding step run reserve_quota reserve_in_transaction reserve_new book find_reservation
    lock_balances period_at units_of units_for_chars allocate usable_from record_reservation
    insert_reservation apply_to_sources apply_to_free apply_to_pass apply_to_wallet charge_pass
    charge_wallet grant_offer find_by_code money_xaf grant_found grant_in_transaction grant_unless
    grant_new conclude grant_for find_purchase lock_for_purchase insert_pass credit_wallet
    give_rights record_purchase refund_quota refund_reservation split_refund record_refund
    mark_refunded give_sources_back
given_back_once = refl

nothing_more : refund_quota 6 120 5000 25 refunded ≡ done (false, refunded)
unfolding step run reserve_quota reserve_in_transaction reserve_new book find_reservation
    lock_balances period_at units_of units_for_chars allocate usable_from record_reservation
    insert_reservation apply_to_sources apply_to_free apply_to_pass apply_to_wallet charge_pass
    charge_wallet grant_offer find_by_code money_xaf grant_found grant_in_transaction grant_unless
    grant_new conclude grant_for find_purchase lock_for_purchase insert_pass credit_wallet
    give_rights record_purchase refund_quota refund_reservation split_refund record_refund
    mark_refunded give_sources_back
nothing_more = refl

refund_quota-once_example : (false ≡ false) × (refunded ≡ refunded)
refund_quota-once_example =
    refund_quota-once 6 50 4000 24 120 5000 25 after refunded false refunded given_back_once
      nothing_more

abbrev granted : GrantOfferOutput
granted = record {
  granted = true;
  grant =
      grant_for (record { code = 2; price = 500; units = 200; active = true; terms = credits }) 2000
        none;
}

credited : grant_offer (buys 2 12) 2000 22 (initial offers) ≡ done (ok granted, bought)
unfolding run step grant_offer find_by_code money_xaf units_of grant_found grant_in_transaction
    grant_unless grant_new conclude grant_for find_purchase lock_for_purchase insert_pass
    credit_wallet give_rights record_purchase
credited = refl

grant_offer-IsBought_example : IsBought 12 7 2 bought
grant_offer-IsBought_example =
    grant_offer-IsBought (buys 2 12) 2000 22 (initial offers) granted bought credited
