-- ===== src/Billing/Catalog.antt =====
-- `listActive` of billing/infrastructure/persistence/offer-catalog.drizzle-repository.ts, which
-- `listOffers` gives back with the weights of the voices.
use voxkivre_backend.Prelude.{
  leb, Bool, true, false, List, [], ◌∷◌, select, Outcome, done, ◌>>=◌, if◌then◌else◌,
}
use voxkivre_backend.Billing.Units.{units_of}
use voxkivre_backend.Billing.Offers.{Terms, pass, credits, Offer}
use voxkivre_backend.Billing.Store.{Db}
use voxkivre_backend.Billing.PurchaseLedger.{money_xaf}

unfoldable pub to_offer : Offer → Outcome Offer
to_offer row = do
  price ← money_xaf row.price
  units ← units_of row.units
  done (record row { price = price; units = units })

abbrev not_after_terms : (t u : Terms) → (cheaper : Bool) → Bool
not_after_terms (pass m) (pass n) cheaper = cheaper
not_after_terms credits credits cheaper = cheaper
not_after_terms (pass m) credits cheaper = true
not_after_terms credits (pass n) cheaper = false

-- The passes before the credits, then by price.
abbrev pub not_after : Offer → Offer → Bool
not_after x y = not_after_terms x.terms y.terms (leb x.price y.price)

abbrev insert_offer : Offer → List Offer → List Offer
insert_offer x [] = x ∷ []
insert_offer x (y ∷ ys) = if not_after x y then x ∷ y ∷ ys else y ∷ insert_offer x ys

abbrev pub ordered : List Offer → List Offer
ordered [] = []
ordered (x ∷ xs) = insert_offer x (ordered xs)

abbrev pub to_offers : List Offer → Outcome (List Offer)
to_offers [] = done []
to_offers (row ∷ rows) = do offer ← to_offer row; offers ← to_offers rows; done (offer ∷ offers)

unfoldable pub list_active : Db → Outcome (List Offer)
list_active db = to_offers (ordered (select (λ o. o.active) db.offers))
