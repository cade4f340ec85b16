-- ===== src/Billing/GrantOffer/Purchases.antt =====
-- `grantOffer` and the rows of `purchases`: one that is there stays, and a grant that is given
-- is one of them.
use voxkivre_backend.Prelude.{
  ℕ, ◌≡◌, refl, sym, ap, ◌∙◌, subst, inl, inr, ◌==◌, Bool-cases, Option-cases, Bool, true, false,
  List, ◌∷◌, Option, none, some, find, find-holds, exists, done, >>=-eq-done, Result, ok,
  if◌then◌else◌, arith,
}
use voxkivre_backend.Billing.Offers.{Offer, Rights, pass_rights, credit_rights, grant_for}
use voxkivre_backend.Billing.Units.{units_of}
use voxkivre_backend.Billing.Store.{Purchase, Pass, Db, purchase_key}
use voxkivre_backend.Billing.PurchaseLedger.{
  GrantedPurchase, RecordedPurchase, to_recorded, find_purchase, lock_for_purchase, purchase_row,
  insert_pass, credit_wallet, give_rights, record_purchase, find_by_code, money_xaf,
}
use voxkivre_backend.Billing.GrantOffer.{
  GrantOfferInput, GrantOfferOutput, GrantError, is_user, already_granted, lost_to, conclude,
  purchase_of, grant_new, grant_unless, grant_in_transaction, grant_found, grant_offer,
}
use voxkivre_backend.Billing.GrantOffer.Cases.{Recorded, grant_offer-cases}

give_rights-purchases :
    (p : GrantedPurchase) (rights : Rights) (at id : ℕ) (db db' : Db)
    → give_rights p rights at id db ≡ done db'
    → db'.purchases ≡ db.purchases
unfolding give_rights insert_pass credit_wallet
give_rights-purchases p (pass_rights starts ends) at id db db' h = ground arith
give_rights-purchases p credit_rights at id db db' h = ground arith

record_purchase-purchases :
    (p : GrantedPurchase) (at id : ℕ) (db : Db) (b : Bool) (db' : Db)
    → record_purchase p at id db ≡ done (b, db')
    → db'.purchases ≡ (if b then purchase_row p at ∷ db.purchases else db.purchases)
unfolding record_purchase
record_purchase-purchases p at id db b db' h =
    elim (Bool-cases (exists (purchase_key p.payment_reference) db.purchases)) [
      | inl e ↦ ground arith
      | inr e ↦
          let r : Bool × Db = (b, db') in
          let (db₁, k, l) =
            >>=-eq-done
              (give_rights p p.grant.rights at id
                (record db { purchases = purchase_row p at ∷ db.purchases }))
              (λ d. done (true, d)) {b = r} (ground arith) in
          ground (arith, give_rights-purchases p p.grant.rights at id _ db₁ k)
    ]

to_recorded-none :
    (passes : List Pass) (o : Option Purchase) → to_recorded passes o ≡ done none → o ≡ none
to_recorded-none passes none h = refl
to_recorded-none passes (some row) h = absurd (ground arith)

find_purchase-none :
    (reference : ℕ) (db : Db)
    → find_purchase reference db ≡ done none
    → find (purchase_key reference) db.purchases ≡ none
unfolding find_purchase
find_purchase-none reference db h = to_recorded-none db.passes _ h

to_recorded-some :
    (passes : List Pass) (o : Option Purchase) (r : RecordedPurchase)
    → to_recorded passes o ≡ done (some r)
    → (row : Purchase) × (o ≡ some row)
      × (r.user_id ≡ row.user_id)
      × (r.grant.offer_code ≡ row.offer_code)
unfolding money_xaf units_of
to_recorded-some passes none r h = absurd (cc)
to_recorded-some passes (some row) r h = (row, refl, ground arith, ground arith)

-- The purchase of that reference is the user's, and of that offer.
abbrev pub IsBought : (reference user offer : ℕ) → Db → Type 0
IsBought reference user offer db =
    (p : Purchase) × (find (purchase_key reference) db.purchases ≡ some p)
    × (p.user_id ≡ some user)
    × (p.offer_code ≡ offer)

is_user-eq : (o : Option ℕ) (user : ℕ) → is_user o user ≡ true → o ≡ some user
is_user-eq none user h = absurd (cc)
is_user-eq (some x) user h = ap some (ground arith)

already_granted-IsBought :
    (existing : RecordedPurchase) (input : GrantOfferInput) (g : GrantOfferOutput) (db : Db)
    → already_granted existing input ≡ ok g
    → find_purchase input.payment_reference db ≡ done (some existing)
    → IsBought input.payment_reference input.user_id input.offer_code db
unfolding already_granted find_purchase
already_granted-IsBought existing input g db h e =
    let (row, k, u, o) = to_recorded-some db.passes _ existing e in
    let owner : is_user existing.user_id input.user_id ≡ true = ground arith in
    let same : existing.grant.offer_code ≡ input.offer_code = ground arith in
    (row, k, sym u ∙ is_user-eq existing.user_id input.user_id owner, sym o ∙ same)

lost_to-IsBought :
    (input : GrantOfferInput) (winner : Option RecordedPurchase) (db : Db) (g : GrantOfferOutput)
    (db' : Db)
    → find_purchase input.payment_reference db ≡ done winner
    → lost_to input winner db ≡ done (ok g, db')
    → IsBought input.payment_reference input.user_id input.offer_code db'
unfolding lost_to
lost_to-IsBought input none db g db' e h = absurd (cc)
lost_to-IsBought input (some winner) db g db' e h =
    let same : db ≡ db' = ground arith in
    subst (IsBought input.payment_reference input.user_id input.offer_code) same
      (already_granted-IsBought winner input g db (ground arith) e)

find_by_code-code :
    (code : ℕ) (db : Db) (offer : Offer)
    → find_by_code code db ≡ done (some offer)
    → offer.code ≡ code
unfolding find_by_code money_xaf units_of
find_by_code-code code db offer h = elim (Option-cases (find (λ o. o.code == code) db.offers)) [
  | inl n ↦ absurd (ground arith)
  | inr (o, e) ↦ ground (arith, find-holds (λ o. o.code == code) db.offers e)
]

module _ (input : GrantOfferInput) (offer : Offer) (now id : ℕ) (db : Db) (g : GrantOfferOutput)
    (db' : Db) where
  concluded-IsBought :
      (recorded : Bool) (db₁ : Db)
      → record_purchase
          (purchase_of input offer now db)
          now
          id
          (lock_for_purchase input.user_id db).1
        ≡ done (recorded, db₁)
      → offer.code ≡ input.offer_code
      → conclude input (purchase_of input offer now db).grant recorded db₁ ≡ done (ok g, db')
      → IsBought input.payment_reference input.user_id input.offer_code db'
  unfolding conclude grant_for
  concluded-IsBought true db₁ e c h =
      let row = purchase_row (purchase_of input offer now db) now in
      let listed : db'.purchases ≡ row ∷ (lock_for_purchase input.user_id db).1.purchases =
        ap (λ d. d.purchases) (the_db db₁ h)
        ∙ record_purchase-purchases (purchase_of input offer now db) now id
            (lock_for_purchase input.user_id db).1 true db₁ e in
      (row, ground arith, refl, c)
    where
      the_db :
          (d : Db)
          → conclude input (purchase_of input offer now db).grant true d ≡ done (ok g, db')
          → db' ≡ d
      the_db d h = ground arith
  concluded-IsBought false db₁ e c h =
      let (winner, k, l) =
        >>=-eq-done (find_purchase input.payment_reference db₁) (λ w. lost_to input w db₁) h in
      lost_to-IsBought input winner db₁ g db' k l

  grant_unless-IsBought :
      (existing : Option RecordedPurchase)
      → find_purchase input.payment_reference db ≡ done existing
      → offer.code ≡ input.offer_code
      → grant_unless input offer now id existing db ≡ done (ok g, db')
      → IsBought input.payment_reference input.user_id input.offer_code db'
  unfolding grant_unless grant_new
  grant_unless-IsBought (some existing) e c h =
      let same : db ≡ db' = ground arith in
      subst (IsBought input.payment_reference input.user_id input.offer_code) same
        (already_granted-IsBought existing input g db (ground arith) e)
  grant_unless-IsBought none e c h =
      let purchase = purchase_of input offer now db in
      let ((recorded, db₁), k, l) =
        >>=-eq-done (record_purchase purchase now id (lock_for_purchase input.user_id db).1)
          (λ x. conclude input purchase.grant x.0 x.1) h in
      concluded-IsBought recorded db₁ k c l

module _ (input : GrantOfferInput) (now id : ℕ) (db : Db) where
  grant_found-IsBought :
      (offer : Option Offer) (g : GrantOfferOutput) (db' : Db)
      → find_by_code input.offer_code db ≡ done offer
      → grant_found input now id offer db ≡ done (ok g, db')
      → IsBought input.payment_reference input.user_id input.offer_code db'
  unfolding grant_found grant_in_transaction
  grant_found-IsBought none g db' sold h = absurd (cc)
  grant_found-IsBought (some offer) g db' sold h =
      let (existing, e, k) =
        >>=-eq-done (find_purchase input.payment_reference db)
          (λ x. grant_unless input offer now id x db) h in
      grant_unless-IsBought input offer now id db g db' existing e
        (find_by_code-code input.offer_code db offer sold) k

  -- When a grant is answered by a success, new or not, the purchase of that reference is in the
  -- table, for that user and that offer.
  pub grant_offer-IsBought :
      (g : GrantOfferOutput) (db' : Db)
      → grant_offer input now id db ≡ done (ok g, db')
      → IsBought input.payment_reference input.user_id input.offer_code db'
  unfolding grant_offer
  grant_offer-IsBought g db' h =
      let (offer, e, k) =
        >>=-eq-done (find_by_code input.offer_code db) (λ x. grant_found input now id x db) h in
      grant_found-IsBought offer g db' e k

  row-kept :
      (db' : Db) (w : Recorded input now id db db') (key : ℕ) (p : Purchase)
      → find (purchase_key key) db.purchases ≡ some p
      → find (purchase_key key) db'.purchases ≡ some p
  unfolding lock_for_purchase
  row-kept db' w key p e =
      let listed =
        record_purchase-purchases (purchase_of input w.offer now db) now id
          (lock_for_purchase input.user_id db).1 w.recorded db' w.written in
      let absent = find_purchase-none input.payment_reference db w.new in
      kept_row w.recorded listed (absent_key absent)
    where
      absent_key :
          find (purchase_key input.payment_reference) db.purchases ≡ none
          → (input.payment_reference == key) ≡ false
      absent_key n = elim (Bool-cases (input.payment_reference == key)) [
        | inr f ↦ f
        | inl t ↦
            let same : input.payment_reference ≡ key = ground arith in
            let none_there : find (purchase_key key) db.purchases ≡ none =
              ap (λ k. find (purchase_key k) db.purchases) (sym same) ∙ n in
            let apart : some p ≡ none = sym e ∙ none_there in absurd (cc)
      ]

      kept_row :
          (b : Bool)
          → db'.purchases ≡ (
              if b
              then purchase_row (purchase_of input w.offer now db) now ∷ db.purchases
              else db.purchases)
          → input.payment_reference == key ≡ false
          → find (purchase_key key) db'.purchases ≡ some p
      kept_row true l f = ap (find (purchase_key key)) l ∙ ground arith
      kept_row false l f = ap (find (purchase_key key)) l ∙ e

  -- A purchase that is there stays there, whatever is granted.
  pub grant_offer-kept :
      (r : Result GrantOfferOutput GrantError) (db' : Db) (key : ℕ) (p : Purchase)
      → grant_offer input now id db ≡ done (r, db')
      → find (purchase_key key) db.purchases ≡ some p
      → find (purchase_key key) db'.purchases ≡ some p
  grant_offer-kept r db' key p h e = elim (grant_offer-cases input now id db r db' h) [
    | inl same ↦ ap (λ d. find (purchase_key key) d.purchases) (sym same) ∙ e
    | inr w ↦ row-kept db' w key p e
  ]
