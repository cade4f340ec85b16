-- ===== src/Library/Anchor.antt =====
-- The anchor of a bookmark in the text of its page:
-- library/domain/services/bookmark-anchor.ts. `normalized`, which reads Unicode classes and
-- decompositions, is a parameter.
pub mod InPage
use voxkivre_backend.Prelude.{
  ℕ, zero, suc, ◌+◌, ◌-◌, ◌==◌, ltb, leb, min, ◌&&◌, Bool, true, false, List, [], ◌∷◌, ◌++◌, length,
  map, Option, none, some, if◌then◌else◌,
}
use voxkivre_backend.Shared.IdempotencyKey.{is_space}
use voxkivre_backend.Shared.Text.{Text, same_text, take, drop}

abbrev pub excerpt_words : ℕ
excerpt_words = 6

abbrev pub max_excerpt_length : ℕ
max_excerpt_length = 120

abbrev pub add_word : Text → List Text → List Text
add_word [] words = words
add_word (c ∷ cs) words = (c ∷ cs) ∷ words

-- `split` at spaces, with `word` the piece that is being read, and no piece that is empty.
unfoldable pub words_from : (word : Text) → Text → List Text
words_from word [] = add_word word []
words_from word (c ∷ cs) =
    let closed = add_word word (words_from [] cs) in
    let open_word = words_from (word ++ (c ∷ [])) cs in if is_space c then closed else open_word

unfoldable pub page_words : Text → List Text
unfolding words_from
page_words text = words_from [] text

abbrev pub joined : (excerpt word : Text) → Text
joined [] word = word
joined (c ∷ cs) word = (c ∷ cs) ++ (32 ∷ word)

unfoldable pub excerpt_from : (excerpt : Text) → List Text → Text
excerpt_from excerpt [] = excerpt
excerpt_from excerpt (word ∷ words) =
    let longer = excerpt_from (joined excerpt word) words in
    if ltb max_excerpt_length (length (joined excerpt word)) then excerpt else longer

-- `words[index] ?? ''`
unfoldable pub word_or_empty : List Text → ℕ → Text
word_or_empty [] index = []
word_or_empty (word ∷ words) zero = word
word_or_empty (word ∷ words) (suc index) = word_or_empty words index

abbrev pub or_first : Text → Text → Text
or_first [] first = take max_excerpt_length first
or_first (c ∷ cs) first = c ∷ cs

unfoldable pub excerpt_at : List Text → (index : ℕ) → Text
unfolding excerpt_from word_or_empty
excerpt_at words index =
    or_first (excerpt_from [] (take excerpt_words (drop index words))) (word_or_empty words index)

pub record ResolvedAnchor : Type 0 where
  pub word_index : ℕ
  pub needs_review : Bool

unfoldable pub matches_at :
    (normalized : Text → Text) → List Text → (target : List Text) (index : ℕ) → Bool
unfolding word_or_empty
matches_at normalized words [] index = true
matches_at normalized words (word ∷ target) index =
    same_text (normalized (word_or_empty words index)) word
    && matches_at normalized words target (index + 1)

abbrev pub distance : ℕ → ℕ → ℕ
distance a b = (a - b) + (b - a)

abbrev pub is_closer : (wanted : ℕ) → Option ℕ → (index : ℕ) → Bool
is_closer wanted none index = true
is_closer wanted (some best) index = ltb (distance index wanted) (distance best wanted)

-- The loop from `index` on, over `left` positions.
unfoldable pub nearest :
    (normalized : Text → Text)
    → List Text
    → (target : List Text) → (wanted : ℕ) → Option ℕ
    → (left index : ℕ) → Option ℕ
unfolding matches_at
nearest normalized words target wanted best zero index = best
nearest normalized words target wanted best (suc left) index =
    nearest normalized words target wanted
      (if is_closer wanted best index && matches_at normalized words target index
        then some index
        else best)
      left (index + 1)

abbrev pub found_or_clamped : Option ℕ → (words : List Text) (wanted : ℕ) → ResolvedAnchor
found_or_clamped (some best) words wanted = record { word_index = best; needs_review = false }
found_or_clamped none words wanted = record {
  word_index = min wanted (length words - 1);
  needs_review = true;
}

abbrev pub locate_target :
    (normalized : Text → Text) → List Text → (target : List Text) (wanted : ℕ) → ResolvedAnchor
locate_target normalized words [] wanted = found_or_clamped none words wanted
locate_target normalized words (t ∷ target) wanted =
    if matches_at normalized words (t ∷ target) wanted
    then record { word_index = wanted; needs_review = false }
    else found_or_clamped
        (nearest normalized words (t ∷ target) wanted none
          ((length words + 1) - length (t ∷ target)) 0)
        words wanted

unfoldable pub locate_anchor :
    (normalized : Text → Text) → List Text → (word_index : ℕ) (excerpt : Text) → ResolvedAnchor
unfolding matches_at nearest page_words
locate_anchor normalized [] word_index excerpt = record { word_index = 0; needs_review = true }
locate_anchor normalized (w ∷ words) word_index excerpt =
    locate_target normalized (w ∷ words) (map normalized (page_words excerpt)) word_index
