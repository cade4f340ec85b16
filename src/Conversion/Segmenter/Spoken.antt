-- ===== src/Conversion/Segmenter/Spoken.antt =====
-- The size of what is said for a word of a page (tokenize of
-- conversion/domain/services/ssml-segmenter.ts): a word is a slice of at most 200 units.
use voxkivre_backend.Prelude.{
  ℕ, zero, suc, ◌*◌, ◌≤◌, ◌&&◌, Bool-cases, inl, inr, List, [], ◌∷◌, map, length, All, All-append,
  arith,
}
use voxkivre_backend.Shared.Text.{Text, take, drop}
use voxkivre_backend.Shared.Text.Utf8.{code_points, sum_sizes, is_high, is_low}
use voxkivre_backend.Conversion.Ssml.{SegmentWord, escaped_size, escaped_byte_length}
use voxkivre_backend.Conversion.Segmenter.{
  PageText, max_word_length, pieces, slices, slices_of_all, words_of,
}

abbrev pub texts_of : List SegmentWord → List Text
texts_of = map (λ (w : SegmentWord). w.t)

-- The word at a position among all words, the empty text past the end.
abbrev pub word_at : List Text → ℕ → Text
word_at [] k = []
word_at (t ∷ ts) zero = t
word_at (t ∷ ts) (suc k) = word_at ts k

escaped_size-le : (c : ℕ) → escaped_size c ≤ 6
escaped_size-le c = ground arith

sum_sizes-le : (cs : List ℕ) → sum_sizes escaped_size cs ≤ 6 * length cs
sum_sizes-le [] = omega arith
sum_sizes-le (c ∷ cs) = omega (arith, escaped_size-le c, sum_sizes-le cs)

length-code_points : (t : Text) → length (code_points t) ≤ length t
unfolding code_points
length-code_points [] = omega arith
length-code_points (c ∷ []) = omega arith
length-code_points (h ∷ l ∷ r) = elim (Bool-cases (is_high h && is_low l)) [
  | inl p ↦ ground (arith, length-code_points r)
  | inr p ↦ ground (arith, length-code_points (l ∷ r))
]

-- A unit of a text takes at most six bytes once it is escaped.
pub escaped_byte_length-le : (t : Text) → escaped_byte_length t ≤ 6 * length t
unfolding escaped_byte_length
escaped_byte_length-le t = omega (arith, sum_sizes-le (code_points t), length-code_points t)

abbrev IsSlice : Text → Type 0
IsSlice t = length t ≤ max_word_length

length-take : (n : ℕ) (t : Text) → length (take n t) ≤ n
length-take zero t = omega arith
length-take (suc n) [] = omega arith
length-take (suc n) (c ∷ cs) = omega (arith, length-take n cs)

slices-IsSlice : (fuel : ℕ) (raw : Text) → All IsSlice (slices fuel raw)
unfolding slices
slices-IsSlice zero raw = tt
slices-IsSlice (suc fuel) [] = tt
slices-IsSlice (suc fuel) (c ∷ cs) =
    (length-take max_word_length (c ∷ cs), slices-IsSlice fuel (drop max_word_length (c ∷ cs)))

slices_of_all-IsSlice : (raws : List Text) → All IsSlice (slices_of_all raws)
unfolding slices_of_all
slices_of_all-IsSlice [] = tt
slices_of_all-IsSlice (raw ∷ raws) =
    All-append IsSlice (slices (length raw) raw) (slices_of_all raws)
      (slices-IsSlice (length raw) raw) (slices_of_all-IsSlice raws)

abbrev pub IsShortWord : SegmentWord → Type 0
IsShortWord w = IsSlice w.t

on_page :
    (page : ℕ) (ts : List Text)
    → All IsSlice ts
    → All IsShortWord (map (λ t. record { t = t; p = page }) ts)
on_page page [] h = tt
on_page page (t ∷ ts) (h, hs) = (h, on_page page ts hs)

pub words_of-IsShortWord : (pages : List PageText) → All IsShortWord (words_of pages)
unfolding words_of
words_of-IsShortWord [] = tt
words_of-IsShortWord (page ∷ pages) =
    All-append IsShortWord
      (map (λ t. record { t = t; p = page.page_number }) (slices_of_all (pieces [] page.text)))
      (words_of pages) (on_page page.page_number _ (slices_of_all-IsSlice (pieces [] page.text)))
      (words_of-IsShortWord pages)
