-- ===== src/Shared/Text.antt =====
-- Texts: a string is the list of its UTF-16 code units, as `slice`, `length` and `for … of` see it.
pub mod Utf8
pub mod Decimal
use Prim.Native.Char.{code}
use Prim.Native.String.{String}
use voxkivre_backend.Prelude.{
  ℕ, zero, suc, ◌+◌, ◌-◌, ◌*◌, ◌/◌, ◌%◌, ◌==◌, ltb, leb, ◌&&◌, ◌≡◌, refl, Bool, true, false, List,
  [], ◌∷◌, ◌++◌, length, if◌then◌else◌, arith,
}

abbrev pub Text : Type 0
Text = List ℕ

-- The units of an ASCII literal.
abbrev pub codes : String → Text
codes String.[] = []
codes (String.◌∷◌ c s) = code c ∷ codes s

-- `===` of two strings.
abbrev pub same_text : Text → Text → Bool
same_text [] [] = true
same_text (x ∷ xs) (y ∷ ys) = x == y && same_text xs ys
same_text [] (y ∷ ys) = false
same_text (x ∷ xs) [] = false

pub same_text-eq : (x y : Text) → same_text x y ≡ true → x ≡ y
same_text-eq [] [] h = refl
same_text-eq [] (b ∷ y) h = absurd (cc)
same_text-eq (a ∷ x) [] h = absurd (cc)
same_text-eq (a ∷ x) (b ∷ y) h = ground (arith, same_text-eq x y)

module _ {ℓ} {A : Type ℓ} where
  -- `slice(0, n)`
  abbrev pub take : ℕ → List A → List A
  take zero xs = []
  take (suc n) [] = []
  take (suc n) (x ∷ xs) = x ∷ take n xs

  -- `slice(n)`
  abbrev pub drop : ℕ → List A → List A
  drop zero xs = xs
  drop (suc n) [] = []
  drop (suc n) (x ∷ xs) = drop n xs

-- The digits of n before `rest`; the fuel n + 1 is more than it has digits.
pub digits_before : (fuel n : ℕ) (rest : Text) → Text
digits_before zero n rest = rest
digits_before (suc fuel) n rest =
    let more = digits_before fuel (n / 10) ((48 + n % 10) ∷ rest) in
    if ltb n 10 then (48 + n) ∷ rest else more

-- `String(n)`
unfoldable pub decimal : ℕ → Text
unfolding digits_before
decimal n = digits_before (suc n) n []

abbrev pub repeated : ℕ → ℕ → Text
repeated zero c = []
repeated (suc n) c = c ∷ repeated n c

-- `padStart(width, '0')`
abbrev pub pad_start : ℕ → Text → Text
pad_start width text = repeated (width - length text) 48 ++ text

abbrev pub join : Text → List Text → Text
join separator [] = []
join separator (x ∷ []) = x
join separator (x ∷ y ∷ xs) = x ++ (separator ++ join separator (y ∷ xs))
