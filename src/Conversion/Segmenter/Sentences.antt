-- ===== src/Conversion/Segmenter/Sentences.antt =====
-- Sentences cut the words of a document without losing one.
use voxkivre_backend.Prelude.{
  ℕ, ◌≡◌, refl, ap, ◌&&◌, not, Bool, Bool-cases, inl, inr, List, [], ◌∷◌, ◌++◌, arith, ◌+◌, map,
}
use mathlib.Core.List.{append_assoc}
use voxkivre_backend.Conversion.Ssml.{SegmentWord, Token}
use voxkivre_backend.Shared.Text.{Text}
use voxkivre_backend.Conversion.Segmenter.{
  split_from, split_sentences, is_sentence_end, tokens_from,
}

abbrev pub flat {ℓ} : {A : Type ℓ} → List (List A) → List A
flat [] = []
flat (x ∷ xs) = x ++ flat xs

split_from-flat :
    (current tokens : List Token) → flat (split_from current tokens) ≡ current ++ tokens
unfolding split_from
split_from-flat [] [] = refl
split_from-flat (t ∷ ts) [] = refl
split_from-flat [] (token ∷ tokens) =
    elim (Bool-cases (not token.abbreviation && is_sentence_end token.word.t)) [
      | inl e ↦ ground (arith, split_from-flat [] tokens)
      | inr e ↦ ground (arith, split_from-flat (token ∷ []) tokens)
    ]
split_from-flat (t ∷ ts) (token ∷ tokens) =
    elim (Bool-cases (not token.abbreviation && is_sentence_end token.word.t)) [
      | inl e ↦ ground (arith, split_from-flat [] tokens, append_assoc (t ∷ ts) (token ∷ []) tokens)
      | inr e ↦ ground (
        arith,
        split_from-flat (t ∷ (ts ++ (token ∷ []))) tokens,
        append_assoc (t ∷ ts) (token ∷ []) tokens,
      )
    ]

pub split_sentences-flat : (tokens : List Token) → flat (split_sentences tokens) ≡ tokens
unfolding split_sentences
split_sentences-flat tokens = split_from-flat [] tokens

abbrev pub words_in : List Token → List SegmentWord
words_in = map (λ (token : Token). token.word)

pub words_in-tokens_from :
    (spoken : ℕ → Text) (abbreviation : ℕ → Bool) (i : ℕ) (words : List SegmentWord)
    → words_in (tokens_from spoken abbreviation i words) ≡ words
unfolding tokens_from
words_in-tokens_from spoken abbreviation i [] = refl
words_in-tokens_from spoken abbreviation i (word ∷ words) =
    ap (λ ws. word ∷ ws) (words_in-tokens_from spoken abbreviation (i + 1) words)
