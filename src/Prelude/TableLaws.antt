-- ===== src/Prelude/TableLaws.antt =====
-- Laws of the statements of `Tables`, and sums over the rows of a table.
use Prim.Native.Nat.{ℕ, ◌+◌, ◌≤◌}
use mathlib.Core.Path.{◌≡◌, refl}
use mathlib.Core.Bool.{Bool, true, false}
use mathlib.Core.Option.{none, some}
use mathlib.Core.List.{List, [], ◌∷◌, ◌++◌}
use native.Mathlib.Omega.{arith}
use mathlib.Core.Logic.{inl, inr}
use voxkivre_backend.Prelude.Tests.{if◌then◌else◌, Option-cases}
use voxkivre_backend.Prelude.Tables.{length, All, find, update, exists, all, select, least_by}

module _ {ℓ} {A : Type ℓ} where
  pub length-append : (xs ys : List A) → length (xs ++ ys) ≡ length xs + length ys
  length-append [] ys = omega arith
  length-append (x ∷ xs) ys = omega (arith, length-append xs ys)

  pub All-append {κ} : (P : A → Type κ) (xs ys : List A) → All P xs → All P ys → All P (xs ++ ys)
  All-append P [] ys h k = k
  All-append P (x ∷ xs) ys (p, h) k = (p, All-append P xs ys h k)

  pub All-split {κ} : (P : A → Type κ) (xs ys : List A) → All P (xs ++ ys) → All P xs × All P ys
  All-split P [] ys h = (tt, h)
  All-split P (x ∷ xs) ys (p, h) = let (k, l) = All-split P xs ys h in ((p, k), l)

  pub find-holds : (p : A → Bool) (xs : List A) {x : A} → find p xs ≡ some x → p x ≡ true
  find-holds p [] e = cc
  find-holds p (y ∷ ys) {x} e = ground (arith, find-holds p ys {x = x})

  pub find_of_not_exists : (p : A → Bool) (xs : List A) → exists p xs ≡ false → find p xs ≡ none
  find_of_not_exists p [] e = refl
  find_of_not_exists p (y ∷ ys) e = ground (arith, find_of_not_exists p ys)

  pub exists_of_find :
      (p : A → Bool) (xs : List A) {x : A} → find p xs ≡ some x → exists p xs ≡ true
  exists_of_find p [] e = cc
  exists_of_find p (y ∷ ys) {x} e = ground (arith, exists_of_find p ys {x = x})

  pub not_exists_of_find : (p : A → Bool) (xs : List A) → find p xs ≡ none → exists p xs ≡ false
  not_exists_of_find p [] e = refl
  not_exists_of_find p (y ∷ ys) e = ground (arith, not_exists_of_find p ys)

  pub update-none :
      (p : A → Bool) (f : A → A) (xs : List A) → exists p xs ≡ false → update p f xs ≡ xs
  update-none p f [] e = refl
  update-none p f (y ∷ ys) e = ground (arith, update-none p f ys)

  pub exists-update :
      (p q : A → Bool) (f : A → A) (xs : List A)
      → ((x : A) → q (f x) ≡ q x)
      → exists q (update p f xs) ≡ exists q xs
  exists-update p q f [] h = refl
  exists-update p q f (y ∷ ys) h = ground (arith, h y, exists-update p q f ys h)

  abbrev pub sum_by : (A → ℕ) → List A → ℕ
  sum_by g [] = 0
  sum_by g (x ∷ xs) = g x + sum_by g xs

  pub sum_by-ge :
      (g : A → ℕ) (p : A → Bool) (xs : List A) (x : A) → find p xs ≡ some x → g x ≤ sum_by g xs
  sum_by-ge g p [] x e = cc
  sum_by-ge g p (y ∷ ys) x e = ground (arith, sum_by-ge g p ys x)

  -- Rows that the statement leaves alone, or whose summand it keeps, do not change a sum.
  pub sum_by-update_same :
      (g : A → ℕ) (p : A → Bool) (f : A → A) (xs : List A)
      → ((x : A) → g (f x) ≡ g x)
      → sum_by g (update p f xs) ≡ sum_by g xs
  sum_by-update_same g p f [] h = refl
  sum_by-update_same g p f (y ∷ ys) h = ground (arith, h y, sum_by-update_same g p f ys h)

  -- At most one row satisfies p.
  abbrev pub AtMostOne : (A → Bool) → List A → Type 0
  AtMostOne p [] = Unit
  AtMostOne p (x ∷ xs) = (p x ≡ true → exists p xs ≡ false) × AtMostOne p xs

  pub sum_by-update :
      (g : A → ℕ) (p : A → Bool) (f : A → A) (xs : List A) (x : A)
      → AtMostOne p xs
      → find p xs ≡ some x
      → sum_by g (update p f xs) + g x ≡ sum_by g xs + g (f x)
  sum_by-update g p f [] x one e = cc
  sum_by-update g p f (y ∷ ys) x one e =
      ground (arith, one.0, update-none p f ys, sum_by-update g p f ys x one.1)

  -- A check on the rows that satisfy p.
  abbrev pub where_holds : (A → Bool) → (A → Bool) → A → Bool
  where_holds p q x = if p x then q x else true

  pub all-where_absent :
      (p q : A → Bool) (xs : List A) → exists p xs ≡ false → all (where_holds p q) xs ≡ true
  all-where_absent p q [] e = refl
  all-where_absent p q (y ∷ ys) e = ground (arith, all-where_absent p q ys)

  pub all-where_one :
      (p q : A → Bool) (xs : List A) (x : A)
      → AtMostOne p xs
      → find p xs ≡ some x
      → q x ≡ true
      → all (where_holds p q) xs ≡ true
  all-where_one p q [] x one e h = refl
  all-where_one p q (y ∷ ys) x one e h =
      ground (arith, one.0, all-where_absent p q ys, all-where_one p q ys x one.1)

  pub all-where_update :
      (p q : A → Bool) (f : A → A) (xs : List A)
      → ((x : A) → p (f x) ≡ p x)
      → all (where_holds p q) (update p f xs) ≡ all (where_holds p (λ x. q (f x))) xs
  all-where_update p q f [] h = refl
  all-where_update p q f (y ∷ ys) h = ground (arith, h y, all-where_update p q f ys h)

  pub exists-select :
      (p q : A → Bool) (xs : List A) → exists q xs ≡ false → exists q (select p xs) ≡ false
  exists-select p q [] e = refl
  exists-select p q (y ∷ ys) e = ground (arith, exists-select p q ys)

  -- The least row of a selection is a row of the table that satisfies the condition; where one
  -- row at most satisfies q and that row does, it is the row that q finds.
  pub least_by-holds :
      (key : A → ℕ) (p : A → Bool) (xs : List A) (x : A)
      → least_by key (select p xs) ≡ some x
      → p x ≡ true
  least_by-holds key p [] x e = cc
  least_by-holds key p (y ∷ ys) x e = elim (Option-cases (least_by key (select p ys))) [
    | inl n ↦ ground arith
    | inr (z, e') ↦ ground (arith, least_by-holds key p ys z)
  ]

  pub least_by-listed :
      (key : A → ℕ) (p q : A → Bool) (xs : List A) (x : A)
      → least_by key (select p xs) ≡ some x
      → q x ≡ true
      → AtMostOne q xs
      → find q xs ≡ some x
  least_by-listed key p q [] x e h one = cc
  least_by-listed key p q (y ∷ ys) x e h one = elim (Option-cases (least_by key (select p ys))) [
    | inl n ↦ ground arith
    | inr (z, e') ↦
        ground (arith, one.0, least_by-listed key p q ys z e', exists_of_find q ys {x = z})
  ]

  pub all-where_find :
      (p q : A → Bool) (xs : List A) (x : A)
      → all (where_holds p q) xs ≡ true
      → find p xs ≡ some x
      → q x ≡ true
  all-where_find p q [] x h e = cc
  all-where_find p q (y ∷ ys) x h e = ground (arith, all-where_find p q ys x)

  pub AtMostOne-update :
      (p q : A → Bool) (f : A → A) (xs : List A)
      → ((x : A) → p (f x) ≡ p x)
      → AtMostOne p xs
      → AtMostOne p (update q f xs)
  AtMostOne-update p q f [] h one = tt
  AtMostOne-update p q f (y ∷ ys) h one =
      (ground (arith, h y, one.0, exists-update q p f ys h), AtMostOne-update p q f ys h one.1)

  -- A check that refuses every row says that there is none.
  pub not_exists_of_all :
      (p : A → Bool) (xs : List A)
      → all (where_holds p (λ x. false)) xs ≡ true
      → exists p xs ≡ false
  not_exists_of_all p [] h = refl
  not_exists_of_all p (y ∷ ys) h = ground (arith, not_exists_of_all p ys)

  pub all_of_not_exists :
      (p : A → Bool) (xs : List A)
      → exists p xs ≡ false
      → all (where_holds p (λ x. false)) xs ≡ true
  all_of_not_exists p [] h = refl
  all_of_not_exists p (y ∷ ys) h = ground (arith, all_of_not_exists p ys)

  pub find-narrow :
      (p q : A → Bool) (xs : List A) (x : A)
      → ((y : A) → p y ≡ true → q y ≡ true)
      → find q xs ≡ some x
      → p x ≡ true
      → find p xs ≡ some x
  find-narrow p q [] x imp e h = cc
  find-narrow p q (y ∷ ys) x imp e h = ground (arith, imp y, find-narrow p q ys x imp)

  pub not_exists-narrow :
      (p q : A → Bool) (xs : List A)
      → ((y : A) → p y ≡ true → q y ≡ true)
      → exists q xs ≡ false
      → exists p xs ≡ false
  not_exists-narrow p q [] imp e = refl
  not_exists-narrow p q (y ∷ ys) imp e = ground (arith, imp y, not_exists-narrow p q ys imp)

  pub AtMostOne-narrow :
      (p q : A → Bool) (xs : List A)
      → ((y : A) → p y ≡ true → q y ≡ true)
      → AtMostOne q xs
      → AtMostOne p xs
  AtMostOne-narrow p q [] imp one = tt
  AtMostOne-narrow p q (y ∷ ys) imp one = (
    ground (arith, imp y, one.0, not_exists-narrow p q ys imp),
    AtMostOne-narrow p q ys imp one.1,
  )
