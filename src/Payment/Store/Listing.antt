-- ===== src/Payment/Store/Listing.antt =====
-- What `listPendingCreatedBefore` lists: the oldest of the payments that are due.
use voxkivre_backend.Prelude.{
  ℕ, zero, suc, ◌≤◌, ◌≡◌, refl, sym, ap, ◌∙◌, subst, ltb, leb, ◌&&◌, ◌⊎◌, Bool, true, false,
  Bool-cases, inl, inr, List, [], ◌∷◌, ◌++◌, select, length, All, Option, none, some, arith,
}
use mathlib.Core.List.{Perm}
use mathlib.Core.List.Perm
use voxkivre_backend.Payment.Status.{PaymentStatus, same_status, Payment, PaymentRow}
use voxkivre_backend.Payment.Store.{
  sweepable, insert_by_age, oldest_first, first_rows, keep_some, payment_of, to_payment,
  payments_of, is_unset, list_pending_created_before,
}

All-select :
    (p : PaymentRow → Bool) (rows : List PaymentRow) → All (λ r. p r ≡ true) (select p rows)
All-select p [] = tt
All-select p (r ∷ rs) = elim (Bool-cases (p r)) [
  | inl e ↦ rw e (e, All-select p rs)
  | inr e ↦ rw e (All-select p rs)
]

All-insert_by_age :
    (p : PaymentRow → Bool) (x : PaymentRow) (rows : List PaymentRow)
    → p x ≡ true
    → All (λ r. p r ≡ true) rows
    → All (λ r. p r ≡ true) (insert_by_age x rows)
All-insert_by_age p x [] e h = (e, tt)
All-insert_by_age p x (y ∷ ys) e (h, hs) = elim (Bool-cases (leb x.created_at y.created_at)) [
  | inl k ↦ rw k (e, (h, hs))
  | inr k ↦ rw k (h, All-insert_by_age p x ys e hs)
]

All-oldest_first :
    (p : PaymentRow → Bool) (rows : List PaymentRow)
    → All (λ r. p r ≡ true) rows
    → All (λ r. p r ≡ true) (oldest_first rows)
All-oldest_first p [] h = tt
All-oldest_first p (x ∷ xs) (h, hs) =
    All-insert_by_age p x (oldest_first xs) h (All-oldest_first p xs hs)

All-first_rows :
    (p : PaymentRow → Bool) (n : ℕ) (rows : List PaymentRow)
    → All (λ r. p r ≡ true) rows
    → All (λ r. p r ≡ true) (first_rows n rows)
All-first_rows p zero rows h = tt
All-first_rows p (suc n) [] h = tt
All-first_rows p (suc n) (r ∷ rs) (h, hs) = (h, All-first_rows p n rs hs)

-- The rows that the limit leaves out.
abbrev rows_after : ℕ → List PaymentRow → List PaymentRow
rows_after zero rows = rows
rows_after (suc n) [] = []
rows_after (suc n) (r ∷ rs) = rows_after n rs

first_rows-append : (n : ℕ) (rows : List PaymentRow) → first_rows n rows ++ rows_after n rows ≡ rows
first_rows-append zero rows = refl
first_rows-append (suc n) [] = refl
first_rows-append (suc n) (r ∷ rs) = ap (λ xs. r ∷ xs) (first_rows-append n rs)

first_rows-full :
    (n : ℕ) (rows : List PaymentRow) → (length (first_rows n rows) ≡ n) ⊎ (rows_after n rows ≡ [])
first_rows-full zero rows = inl refl
first_rows-full (suc n) [] = inr refl
first_rows-full (suc n) (r ∷ rs) = elim (first_rows-full n rs) [
  | inl e ↦ inl (omega (arith, e))
  | inr e ↦ inr e
]

first_rows-length : (n : ℕ) (rows : List PaymentRow) → length (first_rows n rows) ≤ n
first_rows-length zero rows = omega arith
first_rows-length (suc n) [] = omega arith
first_rows-length (suc n) (r ∷ rs) = ground (arith, first_rows-length n rs)

-- Every row that is due is of an account.
payments_of-length :
    (before : ℕ) (rows : List PaymentRow)
    → All (λ r. sweepable before r ≡ true) rows
    → length (payments_of rows) ≡ length rows
payments_of-length before [] h = refl
payments_of-length before (r ∷ rs) (h, hs) =
    go r.user_id (ground arith) (payments_of-length before rs hs)
  where
    go :
        (o : Option ℕ)
        → is_unset o ≡ false
        → length (payments_of rs) ≡ length rs
        → length (keep_some (payment_of o r) (payments_of rs)) ≡ suc (length rs)
    go none u e = absurd (ground arith)
    go (some x) u e = omega (arith, e)

keep_some-append :
    (o : Option Payment) (ps qs : List Payment) → keep_some o ps ++ qs ≡ keep_some o (ps ++ qs)
keep_some-append none ps qs = refl
keep_some-append (some p) ps qs = refl

payments_of-append :
    (xs ys : List PaymentRow) → payments_of (xs ++ ys) ≡ payments_of xs ++ payments_of ys
payments_of-append [] ys = refl
payments_of-append (x ∷ xs) ys =
    ap (keep_some (to_payment x)) (payments_of-append xs ys)
    ∙ sym (keep_some-append (to_payment x) (payments_of xs) (payments_of ys))

keep_some-perm :
    (o : Option Payment) {ps qs : List Payment}
    → Perm ps qs
    → Perm (keep_some o ps) (keep_some o qs)
keep_some-perm none h = h
keep_some-perm (some p) h = Perm.cons p h

keep_some-swap :
    (o o' : Option Payment) (ps : List Payment)
    → Perm (keep_some o (keep_some o' ps)) (keep_some o' (keep_some o ps))
keep_some-swap none o' ps = Perm.rfl
keep_some-swap (some p) none ps = Perm.rfl
keep_some-swap (some p) (some q) ps = Perm.swap q p ps

insert_by_age-perm :
    (x : PaymentRow) (rows : List PaymentRow)
    → Perm (payments_of (insert_by_age x rows)) (payments_of (x ∷ rows))
insert_by_age-perm x [] = Perm.rfl
insert_by_age-perm x (y ∷ ys) = elim (Bool-cases (leb x.created_at y.created_at)) [
  | inl e ↦ rw e Perm.rfl
  | inr e ↦ rw e (
      Perm.trans (keep_some-perm (to_payment y) (insert_by_age-perm x ys))
        (keep_some-swap (to_payment y) (to_payment x) (payments_of ys)))
]

oldest_first-perm :
    (rows : List PaymentRow) → Perm (payments_of (oldest_first rows)) (payments_of rows)
oldest_first-perm [] = Perm.rfl
oldest_first-perm (x ∷ xs) =
    Perm.trans (insert_by_age-perm x (oldest_first xs))
      (keep_some-perm (to_payment x) (oldest_first-perm xs))

-- A payment that the sweep has to read again.
abbrev pub is_overdue : (created_before : ℕ) → Payment → Bool
is_overdue before p = same_status p.status PaymentStatus.pending && ltb p.created_at before

payments_of-select :
    (before : ℕ) (rows : List PaymentRow)
    → payments_of (select (sweepable before) rows) ≡ select (is_overdue before) (payments_of rows)
payments_of-select before [] = refl
payments_of-select before (r ∷ rs) = go r.user_id refl (payments_of-select before rs)
  where
    go :
        (o : Option ℕ)
        → r.user_id ≡ o
        → payments_of (select (sweepable before) rs) ≡ select (is_overdue before) (payments_of rs)
        → payments_of (select (sweepable before) (r ∷ rs))
          ≡ select (is_overdue before) (keep_some (payment_of r.user_id r) (payments_of rs))
    go none u e = ground arith
    go (some x) u e = ground arith

-- Each payment was created no later than those after it.
abbrev pub AreOldestFirst : List Payment → Type 0
AreOldestFirst [] = Unit {0}
AreOldestFirst (p ∷ ps) = All (λ (q : Payment). p.created_at ≤ q.created_at) ps × AreOldestFirst ps

abbrev IsBelow : ℕ → List PaymentRow → Type 0
IsBelow at = All (λ (r : PaymentRow). at ≤ r.created_at)

abbrev AreSorted : List PaymentRow → Type 0
AreSorted [] = Unit {0}
AreSorted (r ∷ rs) = IsBelow r.created_at rs × AreSorted rs

IsBelow-le : (a b : ℕ) (rows : List PaymentRow) → a ≤ b → IsBelow b rows → IsBelow a rows
IsBelow-le a b [] le h = tt
IsBelow-le a b (r ∷ rs) le (h, hs) = (omega arith, IsBelow-le a b rs le hs)

IsBelow-insert_by_age :
    (at : ℕ) (x : PaymentRow) (rows : List PaymentRow)
    → at ≤ x.created_at
    → IsBelow at rows
    → IsBelow at (insert_by_age x rows)
IsBelow-insert_by_age at x [] le h = (le, tt)
IsBelow-insert_by_age at x (y ∷ ys) le (h, hs) = elim (Bool-cases (leb x.created_at y.created_at)) [
  | inl e ↦ rw e (le, (h, hs))
  | inr e ↦ rw e (h, IsBelow-insert_by_age at x ys le hs)
]

AreSorted-insert_by_age :
    (x : PaymentRow) (rows : List PaymentRow) → AreSorted rows → AreSorted (insert_by_age x rows)
AreSorted-insert_by_age x [] h = (tt, tt)
AreSorted-insert_by_age x (y ∷ ys) (h, hs) = elim (Bool-cases (leb x.created_at y.created_at)) [
  | inl e ↦
      let le : x.created_at ≤ y.created_at = ground arith in
      rw e ((le, IsBelow-le x.created_at y.created_at ys le h), (h, hs))
  | inr e ↦
      let le : y.created_at ≤ x.created_at = ground arith in
      rw e (IsBelow-insert_by_age y.created_at x ys le h, AreSorted-insert_by_age x ys hs)
]

AreSorted-oldest_first : (rows : List PaymentRow) → AreSorted (oldest_first rows)
AreSorted-oldest_first [] = tt
AreSorted-oldest_first (x ∷ xs) =
    AreSorted-insert_by_age x (oldest_first xs) (AreSorted-oldest_first xs)

below_payments :
    (at : ℕ) (rows : List PaymentRow)
    → IsBelow at rows
    → All (λ (q : Payment). at ≤ q.created_at) (payments_of rows)
below_payments at [] h = tt
below_payments at (r ∷ rs) (h, hs) = go r.user_id (below_payments at rs hs)
  where
    go :
        (o : Option ℕ)
        → All (λ (q : Payment). at ≤ q.created_at) (payments_of rs)
        → All (λ (q : Payment). at ≤ q.created_at) (keep_some (payment_of o r) (payments_of rs))
    go none k = k
    go (some x) k = (h, k)

AreOldestFirst-payments_of :
    (rows : List PaymentRow) → AreSorted rows → AreOldestFirst (payments_of rows)
AreOldestFirst-payments_of [] h = tt
AreOldestFirst-payments_of (r ∷ rs) (h, hs) =
    go r.user_id (below_payments r.created_at rs h) (AreOldestFirst-payments_of rs hs)
  where
    go :
        (o : Option ℕ)
        → All (λ (q : Payment). r.created_at ≤ q.created_at) (payments_of rs)
        → AreOldestFirst (payments_of rs)
        → AreOldestFirst (keep_some (payment_of o r) (payments_of rs))
    go none b k = k
    go (some x) b k = (b, k)

-- The sweep lists the oldest of the payments that are pending and were created before the time it
-- gives: with those that are left out they are all of these payments, each once and in the order
-- of their creation; there are no more than the limit, and none is left out below it.
pub list_pending_created_before_lem :
    (before limit : ℕ) (rows : List PaymentRow)
    → (rest : List Payment) × Perm
        (list_pending_created_before before limit rows ++ rest)
        (select (is_overdue before) (payments_of rows))
      × AreOldestFirst (list_pending_created_before before limit rows ++ rest)
      × (length (list_pending_created_before before limit rows) ≤ limit)
      × ((length (list_pending_created_before before limit rows) ≡ limit) ⊎ (rest ≡ []))
unfolding list_pending_created_before
list_pending_created_before_lem before limit rows =
    let due = select (sweepable before) rows in
    let listed = first_rows limit (oldest_first due) in
    let all_due =
      All-first_rows (sweepable before) limit _
        (All-oldest_first (sweepable before) due (All-select (sweepable before) rows)) in
    let whole : payments_of listed ++ payments_of (rows_after limit (oldest_first due))
        ≡ payments_of (oldest_first due) =
      sym (payments_of-append listed (rows_after limit (oldest_first due)))
      ∙ ap payments_of (first_rows-append limit (oldest_first due)) in
    (
      payments_of (rows_after limit (oldest_first due)),
      subst (λ ps. Perm ps (select (is_overdue before) (payments_of rows))) (sym whole)
          (subst (Perm (payments_of (oldest_first due))) (payments_of-select before rows)
            (oldest_first-perm due)),
      subst AreOldestFirst (sym whole)
          (AreOldestFirst-payments_of (oldest_first due) (AreSorted-oldest_first due)),
      omega (
        arith,
        payments_of-length before listed all_due,
        first_rows-length limit (oldest_first due),
      ),
      elim (first_rows-full limit (oldest_first due)) [
        | inl e ↦ inl (payments_of-length before listed all_due ∙ e)
        | inr e ↦ inr (ap payments_of e)
      ],
    )
