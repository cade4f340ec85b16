-- ===== src/Library/Anchor/InPage.antt =====
-- Where an anchor is found in the text of its page.
use voxkivre_backend.Prelude.{
  ℕ, zero, suc, ◌+◌, ◌≡◌, ◌≤◌, ◌<◌, refl, ap, ◌∙◌, sym, ltb, ◌&&◌, Bool, Bool-cases, inl, inr, true,
  false, List, [], ◌∷◌, length, map, Option, none, some, if◌then◌else◌, arith,
}
use voxkivre_backend.Shared.Text.{Text, same_text}
use voxkivre_backend.Library.Anchor.{
  page_words, word_or_empty, matches_at, is_closer, nearest, found_or_clamped, locate_target,
  locate_anchor,
}

abbrev pub opens_with_word : List Text → Bool
opens_with_word [] = true
opens_with_word ([] ∷ ts) = false
opens_with_word ((c ∷ cs) ∷ ts) = true

word_or_empty-beyond : (words : List Text) (i : ℕ) → length words ≤ i → word_or_empty words i ≡ []
unfolding word_or_empty
word_or_empty-beyond [] i le = refl
word_or_empty-beyond (w ∷ ws) zero le = absurd (omega arith)
word_or_empty-beyond (w ∷ ws) (suc i) le = word_or_empty-beyond ws i (omega arith)

-- A word that is not empty matches only inside the page.
matches_at-inside :
    (normalized : Text → Text) (words target : List Text) (i c : ℕ) (cs : Text)
    → normalized [] ≡ []
    → matches_at normalized words ((c ∷ cs) ∷ target) i ≡ true
    → i < length words
unfolding matches_at
matches_at-inside normalized words target i c cs none_said h =
    elim (Bool-cases (ltb i (length words))) [
      | inl e ↦ ground arith
      | inr e ↦
          let le : length words ≤ i = ground arith in
          let said : normalized (word_or_empty words i) ≡ [] =
            ap normalized (word_or_empty-beyond words i le) ∙ none_said in
          let k : (same_text [] (c ∷ cs) && matches_at normalized words target (i + 1)) ≡ true =
            ap (λ t. same_text t (c ∷ cs) && matches_at normalized words target (i + 1)) (sym said)
            ∙ h in
          absurd (ground arith)
    ]

abbrev IsInside : ℕ → Option ℕ → Type 0
IsInside n none = Unit {0}
IsInside n (some best) = best < n

nearest-IsInside :
    (normalized : Text → Text) (words target : List Text) (wanted : ℕ) (best : Option ℕ)
    (left i : ℕ)
    → IsInside (length words) best
    → i + left ≤ length words
    → IsInside (length words) (nearest normalized words target wanted best left i)
unfolding nearest
nearest-IsInside normalized words target wanted best zero i v le = v
nearest-IsInside normalized words target wanted best (suc left) i v le =
    nearest-IsInside normalized words target wanted
      (if is_closer wanted best i && matches_at normalized words target i then some i else best)
      left (i + 1) (step (is_closer wanted best i && matches_at normalized words target i))
      (omega arith)
  where
    step : (b : Bool) → IsInside (length words) (if b then some i else best)
    step true = omega arith
    step false = v

found_or_clamped-inside :
    (o : Option ℕ) (w : Text) (ws : List Text) (wanted : ℕ)
    → IsInside (length (w ∷ ws)) o
    → (found_or_clamped o (w ∷ ws) wanted).word_index < length (w ∷ ws)
found_or_clamped-inside none w ws wanted v = grind arith
found_or_clamped-inside (some best) w ws wanted v = v

locate_target-inside :
    (normalized : Text → Text) (w : Text) (ws target : List Text) (wanted : ℕ)
    → normalized [] ≡ []
    → opens_with_word target ≡ true
    → (locate_target normalized (w ∷ ws) target wanted).word_index < length (w ∷ ws)
locate_target-inside normalized w ws [] wanted none_said h =
    found_or_clamped-inside none w ws wanted tt
locate_target-inside normalized w ws ([] ∷ target) wanted none_said h = absurd (ground arith)
locate_target-inside normalized w ws ((c ∷ cs) ∷ target) wanted none_said h =
    elim (Bool-cases (matches_at normalized (w ∷ ws) ((c ∷ cs) ∷ target) wanted)) [
      | inl e ↦ rw e (matches_at-inside normalized (w ∷ ws) target wanted c cs none_said e)
      | inr e ↦ rw e (
          found_or_clamped-inside _ w ws wanted (
            nearest-IsInside normalized (w ∷ ws) ((c ∷ cs) ∷ target) wanted none _ 0 tt
              (omega arith)))
    ]

-- On a page that has words, an anchor is located at one of them, where the empty text is said by
-- the empty text and the first word of the excerpt is not said by it.
pub locate_anchor-inside :
    (normalized : Text → Text) (w : Text) (ws : List Text) (word_index : ℕ) (excerpt : Text)
    → normalized [] ≡ []
    → opens_with_word (map normalized (page_words excerpt)) ≡ true
    → (locate_anchor normalized (w ∷ ws) word_index excerpt).word_index < length (w ∷ ws)
unfolding locate_anchor
locate_anchor-inside normalized w ws word_index excerpt none_said h =
    locate_target-inside normalized w ws (map normalized (page_words excerpt)) word_index none_said
      h
