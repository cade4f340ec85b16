-- ===== src/Conversion/Ssml/Sizes.antt =====
-- The sizes that the segmenter computes are those of the SSML that it writes.
use voxkivre_backend.Prelude.{
  ℕ, ◌<◌, ltb, ◌≡◌, refl, sym, ap, ◌∙◌, ◌⊎◌, ◌&&◌, false, Bool-cases, inl, inr, List, [], ◌∷◌, ◌++◌,
  arith,
}
use voxkivre_backend.Shared.Text.{Text}
use voxkivre_backend.Shared.Text.Utf8.{
  code_points, code_points-alone, sum_sizes, sum_sizes-append, utf8_size, IsAscii,
  code_points-ascii, byte_length, is_high, is_low, starts_low,
}
use voxkivre_backend.Conversion.Ssml.{xml_escapes, escape_xml, escaped_size, escaped_byte_length}

abbrev escapes_all : List ℕ → List ℕ
escapes_all [] = []
escapes_all (c ∷ cs) = xml_escapes c ++ escapes_all cs

xml_escapes-cases : (c : ℕ) → IsAscii (xml_escapes c) ⊎ ((xml_escapes c ≡ c ∷ []) × (0x7F < c))
xml_escapes-cases c = elim (Bool-cases (ltb c 0x80)) [
  | inl a ↦ inl (ground arith)
  | inr b ↦ inr (ground arith, ground arith)
]

starts_low-escapes : (c : ℕ) (xs : Text) → starts_low (xml_escapes c ++ xs) ≡ is_low c
starts_low-escapes c xs = ground arith

code_points-escapes :
    (c : ℕ) (xs : Text)
    → (is_high c && starts_low xs) ≡ false
    → code_points (xml_escapes c ++ xs) ≡ xml_escapes c ++ code_points xs
code_points-escapes c xs e = elim (xml_escapes-cases c) [
  | inl a ↦ code_points-ascii (xml_escapes c) xs a
  | inr (o, _) ↦
      ap (λ t. code_points (t ++ xs)) o
      ∙ code_points-alone c xs e
      ∙ ap (λ t. t ++ code_points xs) (sym o)
]

code_points-escape_xml : (t : Text) → code_points (escape_xml t) ≡ escapes_all (code_points t)
unfolding escape_xml code_points
code_points-escape_xml [] = refl
code_points-escape_xml (c ∷ []) = code_points-escapes c [] (ground arith)
code_points-escape_xml (h ∷ l ∷ r) = elim (Bool-cases (is_high h && is_low l)) [
  | inl p ↦ ground (arith, code_points-escape_xml r)
  | inr p ↦
      code_points-escapes h (escape_xml (l ∷ r))
        (ap (λ b. is_high h && b) (starts_low-escapes l (escape_xml r)) ∙ p)
      ∙ ground (arith, code_points-escape_xml (l ∷ r))
]

sum_sizes-escapes : (c : ℕ) → sum_sizes utf8_size (xml_escapes c) ≡ escaped_size c
sum_sizes-escapes c = ground arith

sum_sizes-escapes_all :
    (cs : List ℕ) → sum_sizes utf8_size (escapes_all cs) ≡ sum_sizes escaped_size cs
sum_sizes-escapes_all [] = refl
sum_sizes-escapes_all (c ∷ cs) = omega (
  arith,
  sum_sizes-append utf8_size (xml_escapes c) (escapes_all cs),
  sum_sizes-escapes c,
  sum_sizes-escapes_all cs,
)

-- The size of the escaped text is computed without escaping it.
pub byte_length-escape_xml : (t : Text) → byte_length (escape_xml t) ≡ escaped_byte_length t
unfolding byte_length escaped_byte_length
byte_length-escape_xml t =
    ap (sum_sizes utf8_size) (code_points-escape_xml t) ∙ sum_sizes-escapes_all (code_points t)
