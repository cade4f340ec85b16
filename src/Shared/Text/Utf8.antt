-- ===== src/Shared/Text/Utf8.antt =====
-- The size of a text in UTF-8, as `TextEncoder.encode` gives it: a surrogate that has no partner
-- is replaced by U+FFFD, which also takes three bytes.
use voxkivre_backend.Prelude.{
  ℕ, ◌+◌, ◌-◌, ◌*◌, ltb, leb, ◌&&◌, ◌≡◌, refl, ap, ◌∙◌, ◌<◌, Bool, true, false, Bool-cases, inl,
  inr, List, [], ◌∷◌, ◌++◌, if◌then◌else◌, arith, All, length,
}
use voxkivre_backend.Shared.Text.{Text}

abbrev pub is_high : ℕ → Bool
is_high c = leb 0xD800 c && ltb c 0xDC00

abbrev pub is_low : ℕ → Bool
is_low c = leb 0xDC00 c && ltb c 0xE000

-- `for (const char of text)` and `codePointAt(0)`: a pair of surrogates is one code point.
unfoldable pub code_points : Text → List ℕ
code_points [] = []
code_points (c ∷ []) = c ∷ []
code_points (h ∷ l ∷ r) = elim (is_high h && is_low l) [
  | true ↦ (0x10000 + (h - 0xD800) * 0x400 + (l - 0xDC00)) ∷ code_points r
  | false ↦ h ∷ code_points (l ∷ r)
]

abbrev pub utf8_size : ℕ → ℕ
utf8_size point =
    if ltb point 0x80 then 1 else if ltb point 0x800 then 2 else if ltb point 0x10000 then 3 else 4

abbrev pub sum_sizes : (ℕ → ℕ) → List ℕ → ℕ
sum_sizes size [] = 0
sum_sizes size (c ∷ cs) = size c + sum_sizes size cs

unfoldable pub byte_length : Text → ℕ
unfolding code_points
byte_length text = sum_sizes utf8_size (code_points text)

abbrev pub starts_low : Text → Bool
starts_low [] = false
starts_low (c ∷ cs) = is_low c

pub code_points-alone :
    (h : ℕ) (xs : Text)
    → (is_high h && starts_low xs) ≡ false
    → code_points (h ∷ xs) ≡ h ∷ code_points xs
unfolding code_points
code_points-alone h [] e = refl
code_points-alone h (l ∷ r) e = ground arith

pub code_points-cons :
    (c : ℕ) (xs : Text) → is_high c ≡ false → code_points (c ∷ xs) ≡ c ∷ code_points xs
code_points-cons c xs e = code_points-alone c xs (rw e)

pub code_points-before :
    (c : ℕ) (xs : Text) → starts_low xs ≡ false → code_points (c ∷ xs) ≡ c ∷ code_points xs
code_points-before c xs e = code_points-alone c xs (ground arith)

-- A text that is put before one that does not start in the middle of a pair.
pub code_points-append :
    (xs ys : Text)
    → starts_low ys ≡ false
    → code_points (xs ++ ys) ≡ code_points xs ++ code_points ys
unfolding code_points
code_points-append [] ys e = refl
code_points-append (c ∷ []) ys e = code_points-before c ys e
code_points-append (h ∷ l ∷ r) ys e = elim (Bool-cases (is_high h && is_low l)) [
  | inl p ↦ ground (arith, code_points-append r ys e)
  | inr p ↦ ground (arith, code_points-append (l ∷ r) ys e)
]

pub sum_sizes-append :
    (size : ℕ → ℕ) (xs ys : List ℕ)
    → sum_sizes size (xs ++ ys) ≡ sum_sizes size xs + sum_sizes size ys
sum_sizes-append size [] ys = omega arith
sum_sizes-append size (x ∷ xs) ys = omega (arith, sum_sizes-append size xs ys)

pub byte_length-append :
    (xs ys : Text)
    → starts_low ys ≡ false
    → byte_length (xs ++ ys) ≡ byte_length xs + byte_length ys
unfolding byte_length
byte_length-append xs ys e =
    ap (sum_sizes utf8_size) (code_points-append xs ys e)
    ∙ sum_sizes-append utf8_size (code_points xs) (code_points ys)

-- ASCII takes a byte a unit.
abbrev pub IsAscii : Text → Type 0
IsAscii = All (λ c. c < 0x80)

pub code_points-ascii : (p xs : Text) → IsAscii p → code_points (p ++ xs) ≡ p ++ code_points xs
code_points-ascii [] xs h = refl
code_points-ascii (c ∷ p) xs (a, h) =
    code_points-cons c (p ++ xs) (ground arith) ∙ ap (λ t. c ∷ t) (code_points-ascii p xs h)

pub byte_length-ascii :
    (p xs : Text) → IsAscii p → byte_length (p ++ xs) ≡ length p + byte_length xs
unfolding byte_length
byte_length-ascii [] xs h = omega arith
byte_length-ascii (c ∷ p) xs (a, h) =
    ground (arith, code_points-cons c (p ++ xs), byte_length-ascii p xs h)
