-- ===== src/Prelude/RowLaws.antt =====
-- What one statement does to the rows that another one asks for.

use mathlib.Core.Path.{◌≡◌, refl, subst}
use mathlib.Core.Logic.{inl, inr}
use mathlib.Core.Bool.{Bool, true, false}
use mathlib.Core.Option.{some}
use mathlib.Core.List.{List, [], ◌∷◌, ◌++◌}
use native.Mathlib.Omega.{arith}
use voxkivre_backend.Prelude.Tests.{if◌then◌else◌, Bool-cases}
use voxkivre_backend.Prelude.Tables.{find, update, exists, All}
use voxkivre_backend.Prelude.TableLaws.{AtMostOne}

module _ {ℓ} {A : Type ℓ} where
  pub find-update :
      (p q : A → Bool) (f : A → A) (xs : List A) (x : A)
      → ((y : A) → p (f y) ≡ p y)
      → find p xs ≡ some x
      → find p (update q f xs) ≡ some (if q x then f x else x)
  find-update p q f [] x h e = cc
  find-update p q f (y ∷ ys) x h e = ground (arith, h y, find-update p q f ys x h)

  pub find-append :
      (p : A → Bool) (xs ys : List A) (x : A) → find p xs ≡ some x → find p (xs ++ ys) ≡ some x
  find-append p [] ys x e = cc
  find-append p (y ∷ xs) ys x e = ground (arith, find-append p xs ys x)

  pub exists-append :
      (p : A → Bool) (xs ys : List A)
      → exists p (xs ++ ys) ≡ (if exists p xs then true else exists p ys)
  exists-append p [] ys = refl
  exists-append p (x ∷ xs) ys = ground (arith, exists-append p xs ys)

  -- Rows that are written satisfy p only if they did.
  pub not_exists-update :
      (p q : A → Bool) (f : A → A) (xs : List A)
      → ((x : A) → q x ≡ true → p (f x) ≡ true → p x ≡ true)
      → exists p xs ≡ false
      → exists p (update q f xs) ≡ false
  not_exists-update p q f [] h e = refl
  not_exists-update p q f (x ∷ xs) h e = ground (arith, h x, not_exists-update p q f xs h)

  pub AtMostOne-shrink :
      (p q : A → Bool) (f : A → A) (xs : List A)
      → ((x : A) → q x ≡ true → p (f x) ≡ true → p x ≡ true)
      → AtMostOne p xs
      → AtMostOne p (update q f xs)
  AtMostOne-shrink p q f [] h one = tt
  AtMostOne-shrink p q f (x ∷ xs) h one =
      (ground (arith, h x, one.0, not_exists-update p q f xs h), AtMostOne-shrink p q f xs h one.1)

  pub All-update {κ μ} :
      (P : A → Type κ) (Q : A → Type μ) (q : A → Bool) (f : A → A) (xs : List A)
      → ((x : A) → q x ≡ true → P x → Q (f x))
      → ((x : A) → q x ≡ false → P x → Q x)
      → All P xs
      → All Q (update q f xs)
  All-update P Q q f [] h k v = tt
  All-update P Q q f (x ∷ xs) h k (v, vs) = elim (Bool-cases (q x)) [
    | inl e ↦ rw e (h x e v, All-update P Q q f xs h k vs)
    | inr e ↦ rw e (k x e v, All-update P Q q f xs h k vs)
  ]

  pub All-map {κ μ} :
      (P : A → Type κ) (Q : A → Type μ) (xs : List A) → ((x : A) → P x → Q x) → All P xs → All Q xs
  All-map P Q [] h v = tt
  All-map P Q (x ∷ xs) h (v, vs) = (h x v, All-map P Q xs h vs)

  pub All-both {κ μ} :
      (P : A → Type κ) (Q : A → Type μ) (xs : List A)
      → All P xs
      → All Q xs
      → All (λ x. P x × Q x) xs
  All-both P Q [] v w = tt
  All-both P Q (x ∷ xs) (v, vs) (w, ws) = ((v, w), All-both P Q xs vs ws)

  pub All-holds {κ} :
      (P : A → Type κ) (p : A → Bool) (xs : List A) (x : A) → All P xs → find p xs ≡ some x → P x
  All-holds P p [] x v e = absurd (cc)
  All-holds P p (y ∷ ys) x (v, vs) e = elim (Bool-cases (p y)) [
    | inl h ↦ let same : y ≡ x = ground arith in subst P same v
    | inr h ↦ All-holds P p ys x vs (ground arith)
  ]

  pub All_of_not_exists :
      (p : A → Bool) (xs : List A) → exists p xs ≡ false → All (λ x. p x ≡ false) xs
  All_of_not_exists p [] e = tt
  All_of_not_exists p (x ∷ xs) e = (ground arith, All_of_not_exists p xs (ground arith))

  pub not_exists_of_All :
      (p : A → Bool) (xs : List A) → All (λ x. p x ≡ false) xs → exists p xs ≡ false
  not_exists_of_All p [] v = refl
  not_exists_of_All p (x ∷ xs) (v, vs) = ground (arith, not_exists_of_All p xs vs)

  -- Where one row at most satisfies p and a row satisfies the narrower q, every row that
  -- satisfies p satisfies q.
  pub All-narrowed :
      (p q : A → Bool) (xs : List A)
      → ((x : A) → q x ≡ true → p x ≡ true)
      → AtMostOne p xs
      → exists q xs ≡ true
      → All (λ x. p x ≡ true → q x ≡ true) xs
  All-narrowed p q [] h one e = tt
  All-narrowed p q (x ∷ xs) h (o, one) e = elim (Bool-cases (q x)) [
    | inl k ↦ (
      (λ _. k),
      All-map (λ y. p y ≡ false) (λ y. p y ≡ true → q y ≡ true) xs (λ y n i. absurd (cc))
          (All_of_not_exists p xs (o (h x k))),
    )
    | inr k ↦
        let rest : exists q xs ≡ true = ground arith in
        ((λ i. absurd (not_both xs (o i) rest)), All-narrowed p q xs h one rest)
  ]
    where
      not_both : (ys : List A) → exists p ys ≡ false → exists q ys ≡ true → ⊥
      not_both [] n m = cc
      not_both (y ∷ ys) n m = ground (arith, h y, not_both ys)
