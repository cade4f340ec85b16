-- ===== src/Prelude/Histories.antt =====
-- A table at two times, by what its keys find.

use mathlib.Core.Path.{◌≡◌}
use mathlib.Core.Logic.{inl, inr}
use mathlib.Core.Bool.{Bool, true, false}
use mathlib.Core.Option.{some}
use mathlib.Core.List.{List, ◌∷◌, ◌++◌}
use native.Mathlib.Omega.{arith}
use voxkivre_backend.Prelude.Tests.{Bool-cases}
use voxkivre_backend.Prelude.Tables.{find, update}
use voxkivre_backend.Prelude.RowLaws.{find-update, find-append}

module _ {I A : Type 0} (R : A → A → Type 0) (key : I → A → Bool) where
  -- What a key finds, it finds later, with the relation R between the rows.
  abbrev pub Followed : List A → List A → Type 0
  Followed xs ys =
      (i : I) (x : A) → find (key i) xs ≡ some x → (y : A) × (find (key i) ys ≡ some y) × R x y

  pub Followed-refl : ((x : A) → R x x) → (xs : List A) → Followed xs xs
  Followed-refl r xs i x e = (x, e, r x)

  pub Followed-trans :
      ((x y z : A) → R x y → R y z → R x z)
      → (xs ys zs : List A) → Followed xs ys
      → Followed ys zs
      → Followed xs zs
  Followed-trans t xs ys zs h k i x e =
      let (y, e₁, r) = h i x e in let (z, e₂, s) = k i y e₁ in (z, e₂, t x y z r s)

  pub Followed-update :
      ((x : A) → R x x)
      → (q : A → Bool) (f : A → A) → ((i : I) (x : A) → key i (f x) ≡ key i x)
      → ((x : A) → q x ≡ true → R x (f x))
      → (xs : List A) → Followed xs (update q f xs)
  Followed-update r q f same h xs i x e =
      let found = find-update (key i) q f xs x (same i) e in
      elim (Bool-cases (q x)) [
        | inl k ↦ (f x, rw k at found, h x k)
        | inr k ↦ (x, rw k at found, r x)
      ]

  pub Followed-append : ((x : A) → R x x) → (xs ys : List A) → Followed xs (xs ++ ys)
  Followed-append r xs ys i x e = (x, find-append (key i) xs ys x e, r x)

  pub Followed-cons :
      ((x : A) → R x x)
      → (x : A) (xs : List A) → ((i : I) (y : A) → find (key i) xs ≡ some y → key i x ≡ false)
      → Followed xs (x ∷ xs)
  Followed-cons r x xs other i y e = (y, ground (arith, other i y e), r y)
