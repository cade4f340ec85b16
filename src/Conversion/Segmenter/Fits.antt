-- ===== src/Conversion/Segmenter/Fits.antt =====
-- The sizes of the segments that `buildSsmlSegments` closes, where each token fits in one.
use voxkivre_backend.Prelude.{
  ℕ, suc, ◌⊎◌, ◌+◌, ◌≤◌, ltb, leb, ◌&&◌, ◌≡◌, refl, sym, ap, subst, Bool, true, false, Bool-cases,
  inl, inr, List, [], ◌∷◌, ◌++◌, length, All, All-append, All-split, arith,
}
use voxkivre_backend.Shared.Text.{Text, decimal}
use voxkivre_backend.Shared.Text.Utf8.{byte_length}
use voxkivre_backend.Conversion.Ssml.{SegmentWord, Token, escaped_byte_length, bytes_of}
use voxkivre_backend.Conversion.Segmenter.{
  PageText, Pronunciation, SsmlSegment, Draft, frame_bytes, max_ssml_bytes, close, push_all, fit,
  fit_each, close_if, place, place_all, empty_draft, tokens_from, tokenize, split_sentences,
  build_ssml_segments, words_of, max_word_length,
}
use voxkivre_backend.Conversion.Segmenter.Spoken.{
  texts_of, word_at, escaped_byte_length-le, IsShortWord, words_of-IsShortWord,
}
use voxkivre_backend.Conversion.Segmenter.Sentences.{flat, split_sentences-flat}
use voxkivre_backend.Conversion.Segmenter.Sizes.{IsSized, byte_length-ssml, bytes_of-next}

abbrev none_added : ℕ
none_added = 0

-- What holds of the variables of `buildSsmlSegments` between two sentences.
pub record IsFitting (d : Draft) : Type 0 where
  pub counted : d.bytes ≡ frame_bytes + bytes_of d.current 0
  pub fits : d.bytes ≤ max_ssml_bytes
  pub sized : All IsSized d.current
  pub segments : All (λ s. byte_length s.ssml ≤ max_ssml_bytes) d.segments

abbrev CanFit : List Token → Type 0
CanFit tokens = frame_bytes + bytes_of tokens 0 ≤ max_ssml_bytes

IsFitting-close_from :
    (segments : List SsmlSegment) (current : List Token) (bytes : ℕ)
    → IsFitting (record { segments = segments; current = current; bytes = bytes })
    → IsFitting (close (record { segments = segments; current = current; bytes = bytes }))
unfolding close bytes_of
IsFitting-close_from segments [] bytes v = v
IsFitting-close_from segments (t ∷ ts) bytes v = record {
  counted = omega arith;
  fits = omega arith;
  sized = tt;
  segments =
      All-append (λ s. byte_length s.ssml ≤ max_ssml_bytes) segments _ v.segments
        (omega (arith, byte_length-ssml (length segments) t ts v.sized, v.counted, v.fits), tt);
}

IsFitting-close : (d : Draft) → IsFitting d → IsFitting (close d)
IsFitting-close d v = IsFitting-close_from d.segments d.current d.bytes v

pub close-empty :
    (segments : List SsmlSegment) (current : List Token) (bytes : ℕ)
    → (close (record { segments = segments; current = current; bytes = bytes })).current ≡ []
unfolding close
close-empty segments [] bytes = refl
close-empty segments (t ∷ ts) bytes = refl

IsFitting-push_all :
    (tokens : List Token) (added : ℕ) (d : Draft)
    → IsFitting d
    → All IsSized tokens
    → added ≡ bytes_of tokens (length d.current)
    → d.bytes + added ≤ max_ssml_bytes
    → IsFitting (push_all tokens added d)
IsFitting-push_all tokens added d v h e le =
    let sum : d.bytes + added ≡ frame_bytes + bytes_of (d.current ++ tokens) 0 =
      omega (arith, bytes_of-next d.current tokens, v.counted, e) in
    record {
      counted = sum;
      fits = le;
      sized = All-append IsSized d.current tokens v.sized h;
      segments = v.segments;
    }

bytes_of-nil : bytes_of [] 0 ≡ none_added
unfolding bytes_of
bytes_of-nil = refl

fits-after_close :
    (d : Draft) (tokens : List Token)
    → IsFitting d
    → CanFit tokens
    → d.current ≡ []
    → (d.bytes + bytes_of tokens 0 ≤ max_ssml_bytes)
      × (bytes_of tokens 0 ≡ bytes_of tokens (length d.current))
fits-after_close d tokens v can e = (
  omega (arith, v.counted, ap (λ ts. bytes_of ts 0) e, bytes_of-nil, can),
  ap (λ ts. bytes_of tokens (length ts)) (sym e),
)

empty_of_length : (xs : List Token) → ltb 0 (length xs) ≡ false → xs ≡ []
empty_of_length [] h = refl
empty_of_length (x ∷ xs) h = absurd (ground arith)

fits-in_place :
    (d : Draft) (tokens : List Token)
    → IsFitting d
    → CanFit tokens
    → (ltb 0 (length d.current)
        && ltb max_ssml_bytes (d.bytes + bytes_of tokens (length d.current)))
      ≡ false
    → d.bytes + bytes_of tokens (length d.current) ≤ max_ssml_bytes
fits-in_place d tokens v can e = elim (Bool-cases (ltb 0 (length d.current))) [
  | inl started ↦ ground arith
  | inr fresh ↦
      let (le, same) = fits-after_close d tokens v can (empty_of_length d.current fresh) in
      omega (arith, le, same)
]

pub IsFitting-fit :
    (tokens : List Token) (d : Draft)
    → CanFit tokens
    → All IsSized tokens
    → IsFitting d
    → IsFitting (fit tokens d)
unfolding fit
IsFitting-fit tokens d can h v =
    let c = IsFitting-close d v in
    let (le, same) =
      fits-after_close (close d) tokens c can (close-empty d.segments d.current d.bytes) in
    elim (Bool-cases (
      ltb 0 (length d.current)
      && ltb max_ssml_bytes (d.bytes + bytes_of tokens (length d.current)))) [
        | inl e ↦ rw e (IsFitting-push_all tokens (bytes_of tokens 0) (close d) c h same le)
        | inr e ↦ rw e (
            IsFitting-push_all tokens (bytes_of tokens (length d.current)) d v h refl
              (fits-in_place d tokens v can e))
      ]

-- Each token fits in a segment of its own.
abbrev pub IsShort : Token → Type 0
IsShort token = CanFit (token ∷ [])

IsFitting-fit_each :
    (tokens : List Token) (d : Draft)
    → All IsShort tokens
    → All IsSized tokens
    → IsFitting d
    → IsFitting (fit_each tokens d)
unfolding fit_each
IsFitting-fit_each [] d short h v = v
IsFitting-fit_each (t ∷ ts) d (s, short) (z, h) v =
    IsFitting-fit_each ts (fit (t ∷ []) d) short h (IsFitting-fit (t ∷ []) d s (z, tt) v)

IsFitting-close_if : (b : Bool) (d : Draft) → IsFitting d → IsFitting (close_if b d)
IsFitting-close_if true d v = IsFitting-close d v
IsFitting-close_if false d v = v

IsFitting-place :
    (sentence : List Token) (d : Draft)
    → All IsShort sentence
    → All IsSized sentence
    → IsFitting d
    → IsFitting (place sentence d)
unfolding place
IsFitting-place sentence d short h v =
    elim (Bool-cases (leb (frame_bytes + bytes_of sentence 0) max_ssml_bytes)) [
      | inl e ↦ rw e (IsFitting-close_if _ _ (IsFitting-fit sentence d (ground arith) h v))
      | inr e ↦ rw e (IsFitting-close_if _ _ (IsFitting-fit_each sentence d short h v))
    ]

IsFitting-place_all :
    (sentences : List (List Token)) (d : Draft)
    → All IsShort (flat sentences)
    → All IsSized (flat sentences)
    → IsFitting d
    → IsFitting (place_all sentences d)
unfolding place_all
IsFitting-place_all [] d short h v = v
IsFitting-place_all (s ∷ ss) d short h v =
    let (short₁, short₂) = All-split IsShort s (flat ss) short in
    let (h₁, h₂) = All-split IsSized s (flat ss) h in
    IsFitting-place_all ss (place s d) short₂ h₂ (IsFitting-place s d short₁ h₁ v)

-- The size of what the voice says for one word, so that the word fits in a segment.
abbrev pub max_spoken_bytes : ℕ
max_spoken_bytes = 4768

IsShort-token : (token : Token) → token.bytes ≤ max_spoken_bytes → IsShort token
unfolding bytes_of decimal
IsShort-token token h = omega arith

-- What is said for a word: the word itself, or something that fits in a segment of its own.
spoken-le :
    (t said : Text)
    → length t ≤ max_word_length
    → (said ≡ t) ⊎ (escaped_byte_length said ≤ max_spoken_bytes)
    → escaped_byte_length said ≤ max_spoken_bytes
spoken-le t said short (inl e) =
    subst (λ x. escaped_byte_length x ≤ max_spoken_bytes) (sym e)
      (omega (arith, escaped_byte_length-le t))
spoken-le t said short (inr le) = le

-- What is said for the word at a position.
abbrev IsSaid : Text → List SegmentWord → ℕ → Type 0
IsSaid said words k =
    (said ≡ word_at (texts_of words) k) ⊎ (escaped_byte_length said ≤ max_spoken_bytes)

tokens_from-fit :
    (spoken : ℕ → Text) (abbreviation : ℕ → Bool) (i : ℕ) (words : List SegmentWord)
    → All IsShortWord words
    → ((k : ℕ) → IsSaid (spoken (i + k)) words k)
    → All IsShort (tokens_from spoken abbreviation i words)
      × All IsSized (tokens_from spoken abbreviation i words)
unfolding tokens_from
tokens_from-fit spoken abbreviation i [] l h = (tt, tt)
tokens_from-fit spoken abbreviation i (w ∷ ws) (l, ls) h =
    let first : i + 0 ≡ i = omega arith in
    let (short, sized) = tokens_from-fit spoken abbreviation (i + 1) ws ls (λ k.
      let next : i + suc k ≡ (i + 1) + k = omega arith in
      subst (λ j. IsSaid (spoken j) (w ∷ ws) (suc k)) next (h (suc k))) in
    (
      (
        IsShort-token _
            (spoken-le w.t (spoken i) l (subst (λ j. IsSaid (spoken j) (w ∷ ws) 0) first (h 0))),
        short,
      ),
      (refl, sized),
    )

-- No segment of SSML is larger than the limit, whatever the pages hold, where each word of them is
-- said as it is written or by no more bytes than fit in a segment of its own.
pub build_ssml_segments-fit :
    (pronounce : Pronunciation) (pages : List PageText)
    → ((k : ℕ)
        → (pronounce.spoken (texts_of (words_of pages)) k ≡ word_at (texts_of (words_of pages)) k)
          ⊎ (escaped_byte_length (pronounce.spoken (texts_of (words_of pages)) k)
              ≤ max_spoken_bytes))
    → All (λ s. byte_length s.ssml ≤ max_ssml_bytes) (build_ssml_segments pronounce pages)
unfolding build_ssml_segments tokenize
build_ssml_segments-fit pronounce pages h =
    let tokens = tokenize pronounce pages in
    let (short, sized) : All IsShort tokens × All IsSized tokens =
      tokens_from-fit _ _ 0 (words_of pages) (words_of-IsShortWord pages) (λ k.
        let at_k : k ≡ 0 + k = omega arith in
        subst (λ j. IsSaid (pronounce.spoken (texts_of (words_of pages)) j) (words_of pages) k) at_k
          (h k)) in
    let whole = sym (split_sentences-flat tokens) in
    let start : IsFitting empty_draft = record {
      counted = omega (arith, bytes_of-nil);
      fits = omega arith;
      sized = tt;
      segments = tt;
    } in
    (IsFitting-close _ (
      IsFitting-place_all (split_sentences tokens) empty_draft (subst (All IsShort) whole short)
        (subst (All IsSized) whole sized) start)).segments
