-- ===== src/Billing/Conservation/Purchase.antt =====
-- `grantOffer` keeps the books balanced: the credits sold reach the wallet and the journal, and a
-- pass begins unused.
use voxkivre_backend.Prelude.{
  ℕ, ◌+◌, ◌≡◌, refl, inl, inr, ◌==◌, Bool-cases, Bool, true, false, List, [], ◌∷◌, exists, all,
  update, exists-update, done, >>=-eq-done, if◌then◌else◌, arith,
}
use voxkivre_backend.Billing.Offers.{Rights, pass_rights, credit_rights}
use voxkivre_backend.Billing.Store.{Pass, Wallet, Db, wallet_key, pass_key, purchase_key}
use voxkivre_backend.Billing.UnitsLedger.{given_back}
use voxkivre_backend.Billing.UnitsLedger.Counters.{
  balance, balance-charge, balance_of_absent, balance-ensure_wallet, exists-ensure_wallet,
  exists-ensure_wallet_mono,
}
use voxkivre_backend.Billing.UnitsLedger.Charges.{exists_wallet_key, pass_used_absent}
use voxkivre_backend.Billing.PurchaseLedger.{
  GrantedPurchase, insert_pass, pass_row, purchase_row, credit_entry, credit_wallet, give_rights,
  record_purchase, lock_for_purchase,
}
use voxkivre_backend.Billing.Conservation.Books.{IsBalanced}

insert_pass-done :
    (p : Pass) (db db' : Db)
    → insert_pass p db ≡ done db'
    → (db' ≡ record db { passes = p ∷ db.passes }) × (exists (pass_key p.id) db.passes ≡ false)
unfolding insert_pass
insert_pass-done p db db' h =
    (ground arith, absent p.id p.payment_reference db.passes (ground arith))
  where
    absent :
        (id reference : ℕ) (rows : List Pass)
        → all
            (λ q.
              if q.id == id
              then false
              else if q.payment_reference == reference
              then false
              else true)
            rows
          ≡ true
        → exists (pass_key id) rows ≡ false
    absent id reference [] h = refl
    absent id reference (q ∷ qs) h = ground (arith, absent id reference qs)

balance-credited :
    (user u n : ℕ) (rows : List Wallet)
    → exists (wallet_key user) rows ≡ true
    → balance u
        (update (wallet_key user) (λ w. record w { balance_units = w.balance_units + n }) rows)
      ≡ (if user == u then balance u rows + n else balance u rows)
balance-credited user u n rows h = ground (
  arith,
  balance-charge given_back n user u rows,
  balance_of_absent u rows,
  exists_wallet_key user u rows,
)

module _ (p : GrantedPurchase) (at id : ℕ) (db : Db) (v : IsBalanced db) where
  abbrev bought : Db
  bought = record db { purchases = purchase_row p at ∷ db.purchases }

  pass-IsBalanced :
      (starts ends : ℕ) (db' : Db)
      → p.grant.rights ≡ pass_rights starts ends
      → insert_pass (pass_row p starts ends id) bought ≡ done db'
      → IsBalanced db'
  pass-IsBalanced starts ends db' e h =
      let (left, fresh) = insert_pass-done (pass_row p starts ends id) bought db' h in
      rw left (record {
        free = v.free;
        pass = λ j. ground (arith, v.pass j, pass_used_absent j db.passes, same_pass j fresh);
        credits = λ u. ground (arith, v.credits u);
        journal = v.journal;
        funded = v.funded;
        within = (omega arith, v.within);
        one_reservation = v.one_reservation;
        one_pass = λ j. (λ k. ground (arith, same_pass j fresh), v.one_pass j);
      })
    where
      same_pass :
          (j : ℕ)
          → exists (pass_key id) db.passes ≡ false
          → id ≡ j
          → exists (pass_key j) db.passes ≡ false
      same_pass j f e = rw (← e) f

  credits-IsBalanced :
      (db' : Db)
      → p.grant.rights ≡ credit_rights
      → exists (wallet_key p.user_id) db.wallets ≡ true
      → credit_wallet p at id bought ≡ done db'
      → IsBalanced db'
  unfolding credit_wallet
  credits-IsBalanced db' e there h =
      let left : db' ≡ record bought {
        wallets =
            update (wallet_key p.user_id)
              (λ w. record w { balance_units = w.balance_units + p.grant.units }) db.wallets;
        credit_entries = credit_entry p at id ∷ db.credit_entries;
      } =
        ground arith in
      rw left (record {
        free = v.free;
        pass = v.pass;
        credits = λ u.
            ground
              (arith, v.credits u, balance-credited p.user_id u p.grant.units db.wallets there);
        journal = λ u.
            ground
              (arith, v.journal u, balance-credited p.user_id u p.grant.units db.wallets there);
        funded = λ u k. v.funded u (
            rw
              (exists-update (wallet_key p.user_id) (wallet_key u)
                (λ w. record w { balance_units = w.balance_units + p.grant.units }) db.wallets
                (λ w. refl))
              at k);
        within = v.within;
        one_reservation = v.one_reservation;
        one_pass = v.one_pass;
      })

-- `lockForPurchase` adds an empty wallet at most.
locked-IsBalanced : (user : ℕ) (db : Db) → IsBalanced db → IsBalanced (lock_for_purchase user db).1
unfolding lock_for_purchase
locked-IsBalanced user db v = record {
  free = v.free;
  pass = v.pass;
  credits = λ u. ground (arith, balance-ensure_wallet user u db.wallets, v.credits u);
  journal = λ u. ground (arith, balance-ensure_wallet user u db.wallets, v.journal u);
  funded = λ u e. ground (
    arith,
    exists-ensure_wallet_mono user u db.wallets,
    v.funded u,
    Bool-cases (exists (wallet_key u) db.wallets),
  );
  within = v.within;
  one_reservation = v.one_reservation;
  one_pass = v.one_pass;
}

give_rights-IsBalanced :
    (p : GrantedPurchase) (rights : Rights) (at id : ℕ) (db db' : Db)
    → p.grant.rights ≡ rights
    → IsBalanced db
    → exists (wallet_key p.user_id) db.wallets ≡ true
    → give_rights p rights at id (record db { purchases = purchase_row p at ∷ db.purchases })
      ≡ done db'
    → IsBalanced db'
unfolding give_rights
give_rights-IsBalanced p (pass_rights starts ends) at id db db' e v there h =
    pass-IsBalanced p at id db v starts ends db' e (ground arith)
give_rights-IsBalanced p credit_rights at id db db' e v there h =
    credits-IsBalanced p at id db v db' e there h

pub record_purchase-IsBalanced :
    (p : GrantedPurchase) (at id : ℕ) (db : Db) (recorded : Bool) (db' : Db)
    → record_purchase p at id (lock_for_purchase p.user_id db).1 ≡ done (recorded, db')
    → IsBalanced db
    → IsBalanced db'
unfolding record_purchase lock_for_purchase
record_purchase-IsBalanced p at id db recorded db' h v =
    let locked = (lock_for_purchase p.user_id db).1 in
    let v' = locked-IsBalanced p.user_id db v in
    elim (Bool-cases (exists (purchase_key p.payment_reference) db.purchases)) [
      | inl e ↦ let same : locked ≡ db' = ground arith in rw same at v'
      | inr e ↦
          let (db₁, k, h₁) =
            >>=-eq-done
              (give_rights p p.grant.rights at id
                (record locked { purchases = purchase_row p at ∷ db.purchases }))
              (λ x. done (true, x)) (rw (e, record_purchase) at h) in
          let same : db₁ ≡ db' = ground arith in
          rw same at (
            give_rights-IsBalanced p p.grant.rights at id locked db₁ refl v'
              (exists-ensure_wallet p.user_id db.wallets) k)
    ]
