-- ===== src/Conversion/Segmenter/Words.antt =====
-- The segments hold the words of the pages, in order.
use voxkivre_backend.Prelude.{
  ℕ, ◌+◌, ◌<◌, ltb, leb, ◌&&◌, ◌≡◌, refl, sym, ap, ◌∙◌, subst, Bool, true, false, Bool-cases, inl,
  inr, List, [], ◌∷◌, ◌++◌, length, arith,
}
use mathlib.Core.List.{append_assoc, append-nil, map-append}
use voxkivre_backend.Conversion.Ssml.{SegmentWord, Token, bytes_of}
use voxkivre_backend.Conversion.Segmenter.{
  PageText, Pronunciation, SsmlSegment, Draft, frame_bytes, max_ssml_bytes, to_segment, close,
  push_all, fit, fit_each, close_if, place, place_all, empty_draft, tokenize, split_sentences,
  words_of, build_ssml_segments,
}
use voxkivre_backend.Conversion.Segmenter.Fits.{close-empty}
use voxkivre_backend.Conversion.Segmenter.Sentences.{
  flat, split_sentences-flat, words_in, words_in-tokens_from,
}

abbrev pub words_of_all : List SsmlSegment → List SegmentWord
words_of_all [] = []
words_of_all (s ∷ ss) = s.words ++ words_of_all ss

-- Numbered from n on, each with a word.
abbrev pub AreNumbered : ℕ → List SsmlSegment → Type 0
AreNumbered n [] = Unit
AreNumbered n (s ∷ ss) = (s.index ≡ n) × (0 < length s.words) × AreNumbered (n + 1) ss

words_of_all-append :
    (xs ys : List SsmlSegment) → words_of_all (xs ++ ys) ≡ words_of_all xs ++ words_of_all ys
words_of_all-append [] ys = refl
words_of_all-append (x ∷ xs) ys =
    ap (λ ws. x.words ++ ws) (words_of_all-append xs ys)
    ∙ sym (append_assoc x.words (words_of_all xs) (words_of_all ys))

AreNumbered-append :
    (n : ℕ) (xs : List SsmlSegment) (s : SsmlSegment)
    → AreNumbered n xs
    → s.index ≡ n + length xs
    → 0 < length s.words
    → AreNumbered n (xs ++ (s ∷ []))
AreNumbered-append n [] s h e w = (omega arith, w, tt)
AreNumbered-append n (x ∷ xs) s (i, v, h) e w =
    (i, v, AreNumbered-append (n + 1) xs s h (omega arith) w)

-- What is written so far.
abbrev written : Draft → List SegmentWord
written d = words_of_all d.segments ++ words_in d.current

-- A draft whose segments are numbered, after these words.
record Holds (words : List SegmentWord) (d : Draft) : Type 0 where
  same : written d ≡ words
  numbered : AreNumbered 0 d.segments

Holds-close_from :
    (words : List SegmentWord) (segments : List SsmlSegment) (current : List Token) (bytes : ℕ)
    → Holds words (record { segments = segments; current = current; bytes = bytes })
    → Holds words (close (record { segments = segments; current = current; bytes = bytes }))
unfolding close to_segment
Holds-close_from words segments [] bytes v = v
Holds-close_from words segments (t ∷ ts) bytes v = record {
  same =
      append-nil _
      ∙ words_of_all-append segments (to_segment (length segments) (t ∷ ts) ∷ [])
      ∙ ap (λ ws. words_of_all segments ++ ws) (append-nil (words_in (t ∷ ts)))
      ∙ v.same;
  numbered =
      AreNumbered-append 0 segments (to_segment (length segments) (t ∷ ts)) v.numbered (omega arith)
        (omega arith);
}

Holds-close : (words : List SegmentWord) (d : Draft) → Holds words d → Holds words (close d)
Holds-close words d v = Holds-close_from words d.segments d.current d.bytes v

Holds-push_all :
    (words : List SegmentWord) (tokens : List Token) (added : ℕ) (d : Draft)
    → Holds words d
    → Holds (words ++ words_in tokens) (push_all tokens added d)
Holds-push_all words tokens added d v = record {
  same =
      ap (λ ws. words_of_all d.segments ++ ws) (map-append (λ (t : Token). t.word) d.current tokens)
      ∙ sym (append_assoc (words_of_all d.segments) (words_in d.current) (words_in tokens))
      ∙ ap (λ ws. ws ++ words_in tokens) v.same;
  numbered = v.numbered;
}

Holds-fit :
    (words : List SegmentWord) (tokens : List Token) (d : Draft)
    → Holds words d
    → Holds (words ++ words_in tokens) (fit tokens d)
unfolding fit
Holds-fit words tokens d v =
    elim (Bool-cases (
      ltb 0 (length d.current)
      && ltb max_ssml_bytes (d.bytes + bytes_of tokens (length d.current)))) [
        | inl e ↦ rw e (Holds-push_all words tokens _ (close d) (Holds-close words d v))
        | inr e ↦ rw e (Holds-push_all words tokens _ d v)
      ]

Holds-fit_each :
    (words : List SegmentWord) (tokens : List Token) (d : Draft)
    → Holds words d
    → Holds (words ++ words_in tokens) (fit_each tokens d)
unfolding fit_each
Holds-fit_each words [] d v = subst (λ ws. Holds ws d) (sym (append-nil words)) v
Holds-fit_each words (t ∷ ts) d v =
    subst (λ ws. Holds ws (fit_each (t ∷ ts) d)) (append_assoc words (t.word ∷ []) (words_in ts))
      (Holds-fit_each (words ++ (t.word ∷ [])) ts (fit (t ∷ []) d) (Holds-fit words (t ∷ []) d v))

Holds-close_if :
    (words : List SegmentWord) (b : Bool) (d : Draft) → Holds words d → Holds words (close_if b d)
Holds-close_if words true d v = Holds-close words d v
Holds-close_if words false d v = v

Holds-place :
    (words : List SegmentWord) (sentence : List Token) (d : Draft)
    → Holds words d
    → Holds (words ++ words_in sentence) (place sentence d)
unfolding place
Holds-place words sentence d v =
    elim (Bool-cases (leb (frame_bytes + bytes_of sentence 0) max_ssml_bytes)) [
      | inl e ↦ rw e (Holds-close_if _ _ _ (Holds-fit words sentence d v))
      | inr e ↦ rw e (Holds-close_if _ _ _ (Holds-fit_each words sentence d v))
    ]

Holds-place_all :
    (words : List SegmentWord) (sentences : List (List Token)) (d : Draft)
    → Holds words d
    → Holds (words ++ words_in (flat sentences)) (place_all sentences d)
unfolding place_all
Holds-place_all words [] d v = subst (λ ws. Holds ws d) (sym (append-nil words)) v
Holds-place_all words (s ∷ ss) d v =
    let last : (words ++ words_in s) ++ words_in (flat ss) ≡ words ++ words_in (s ++ flat ss) =
      append_assoc words (words_in s) (words_in (flat ss))
      ∙ ap (λ ws. words ++ ws) (sym (map-append (λ (t : Token). t.word) s (flat ss))) in
    subst (λ ws. Holds ws (place_all (s ∷ ss) d)) last
      (Holds-place_all (words ++ words_in s) ss (place s d) (Holds-place words s d v))

-- The segments of a document, one after the other, hold exactly the words of its pages in order,
-- each with its page; they are numbered from 0 without a gap, and none is empty.
pub build_ssml_segments-words :
    (pronounce : Pronunciation) (pages : List PageText)
    → (words_of_all (build_ssml_segments pronounce pages) ≡ words_of pages)
      × AreNumbered 0 (build_ssml_segments pronounce pages)
unfolding build_ssml_segments tokenize
build_ssml_segments-words pronounce pages =
    let tokens = tokenize pronounce pages in
    let d = place_all (split_sentences tokens) empty_draft in
    let start : Holds [] empty_draft = record { same = refl; numbered = tt } in
    let v = Holds-close _ d (Holds-place_all [] (split_sentences tokens) empty_draft start) in
    let none_left : words_in (close d).current ≡ [] =
      ap words_in (close-empty d.segments d.current d.bytes) in
    let whole : words_of_all (close d).segments
        ≡ words_of_all (close d).segments ++ words_in (close d).current =
      sym (ap (λ ws. words_of_all (close d).segments ++ ws) none_left ∙ append-nil _) in
    (
      whole
          ∙ v.same
          ∙ ap words_in (split_sentences-flat tokens)
          ∙ words_in-tokens_from _ _ 0 (words_of pages),
      v.numbered,
    )
