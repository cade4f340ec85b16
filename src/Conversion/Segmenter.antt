-- ===== src/Conversion/Segmenter.antt =====
-- conversion/domain/services/ssml-segmenter.ts: the text of a document in segments of SSML. What
-- the voice says for each word (pronunciation.ts) is a parameter: a text and whether the word is
-- an abbreviation, for the position of a word among all words.
pub mod Sentences
pub mod Sizes
pub mod Spoken
pub mod Fits
pub mod Words
use Prim.Native.Nat.{bit_xor}
use mathlib.Core.List.{reverse}
use voxkivre_backend.Prelude.{
  ℕ, zero, suc, ◌+◌, ◌*◌, ◌%◌, ◌-◌, ◌==◌, ltb, leb, ◌&&◌, ◌||◌, not, Bool, true, false, List, [],
  ◌∷◌, ◌++◌, length, map, if◌then◌else◌,
}
use voxkivre_backend.Shared.IdempotencyKey.{is_space}
use voxkivre_backend.Shared.Text.{Text, codes, take, drop, join}
use voxkivre_backend.Shared.Text.Utf8.{code_points}
use voxkivre_backend.Conversion.Ssml.{
  SegmentWord, Token, escape_xml, escaped_byte_length, mark_tag, bytes_of,
}

abbrev pub max_ssml_bytes : ℕ
max_ssml_bytes = 4800

abbrev pub soft_min_ssml_bytes : ℕ
soft_min_ssml_bytes = 2400

abbrev pub max_word_length : ℕ
max_word_length = 200

pub record PageText : Type 0 where
  pub page_number : ℕ
  pub text : Text

pub record SsmlSegment : Type 0 where
  pub index : ℕ
  pub ssml : Text
  pub words : List SegmentWord
  pub char_count : ℕ

-- What the voice says after the mark of each word, and which words are abbreviations.
pub record Pronunciation : Type 0 where
  pub spoken : List Text → ℕ → Text
  pub abbreviation : List Text → ℕ → Bool

-- `SPEAK_OPEN + SPEAK_CLOSE`
abbrev pub frame_bytes : ℕ
frame_bytes = 15

-- `split(/\s+/u)` with a piece for each single space: the source keeps no word that is empty.
unfoldable pub pieces : (piece : Text) → Text → List Text
pieces piece [] = piece ∷ []
pieces piece (c ∷ cs) =
    let closed = piece ∷ pieces [] cs in
    let open_piece = pieces (piece ++ (c ∷ [])) cs in if is_space c then closed else open_piece

-- The slices of `max_word_length` units of a piece; the fuel is its length.
unfoldable pub slices : (fuel : ℕ) → Text → List Text
slices zero raw = []
slices (suc fuel) [] = []
slices (suc fuel) (c ∷ cs) =
    take max_word_length (c ∷ cs) ∷ slices fuel (drop max_word_length (c ∷ cs))

unfoldable pub slices_of_all : List Text → List Text
unfolding slices
slices_of_all [] = []
slices_of_all (raw ∷ raws) = slices (length raw) raw ++ slices_of_all raws

unfoldable pub words_of : List PageText → List SegmentWord
unfolding slices_of_all pieces
words_of [] = []
words_of (page ∷ pages) =
    map (λ t. record { t = t; p = page.page_number }) (slices_of_all (pieces [] page.text))
    ++ words_of pages

unfoldable pub tokens_from :
    (spoken : ℕ → Text) (abbreviation : ℕ → Bool) (i : ℕ) → List SegmentWord → List Token
tokens_from spoken abbreviation i [] = []
tokens_from spoken abbreviation i (word ∷ words) =
    record {
      word = word;
      spoken = spoken i;
      abbreviation = abbreviation i;
      bytes = escaped_byte_length (spoken i);
    }
    ∷ tokens_from spoken abbreviation (i + 1) words

unfoldable pub tokenize : Pronunciation → List PageText → List Token
unfolding words_of tokens_from
tokenize pronounce pages =
    let words = words_of pages in
    let texts = map (λ (word : SegmentWord). word.t) words in
    tokens_from (pronounce.spoken texts) (pronounce.abbreviation texts) 0 words

-- Quotes and brackets that may follow the end of a sentence: " ' » ” ’ ) ]
abbrev pub is_closer : ℕ → Bool
is_closer c =
    (c == 34)
    || (c == 39)
    || (c == 0xBB)
    || (c == 0x201D)
    || (c == 0x2019)
    || (c == b')')
    || (c == b']')

-- . ! ? …
abbrev pub is_terminator : ℕ → Bool
is_terminator c = (c == b'.') || (c == b'!') || (c == b'?') || (c == 0x2026)

unfoldable pub ends_backwards : Text → Bool
ends_backwards [] = false
ends_backwards (c ∷ cs) = if is_closer c then ends_backwards cs else is_terminator c

-- `SENTENCE_END.test`
unfoldable pub is_sentence_end : Text → Bool
unfolding ends_backwards
is_sentence_end t = ends_backwards (reverse t)

unfoldable pub split_from : (current : List Token) → List Token → List (List Token)
split_from [] [] = []
split_from (t ∷ ts) [] = (t ∷ ts) ∷ []
split_from current (token ∷ tokens) =
    let sentence = current ++ (token ∷ []) in
    let ended = sentence ∷ split_from [] tokens in
    let goes_on = split_from sentence tokens in
    if not token.abbreviation && is_sentence_end token.word.t then ended else goes_on

unfoldable pub split_sentences : List Token → List (List Token)
unfolding split_from
split_sentences tokens = split_from [] tokens

-- A round of FNV-1a: `hash ^= point`, then `Math.imul(hash, prime) >>> 0`.
unfoldable pub fnv1a_from : (hash : ℕ) → List ℕ → ℕ
fnv1a_from hash [] = hash
fnv1a_from hash (point ∷ points) =
    fnv1a_from ((bit_xor hash point * 0x1000193) % 0x100000000) points

unfoldable pub fnv1a : Text → ℕ
unfolding fnv1a_from
fnv1a text = fnv1a_from 0x811C9DC5 (code_points text)

unfoldable pub is_anchor : List Token → Bool
unfolding fnv1a
is_anchor sentence =
    fnv1a (join (codes " ") (map (λ (token : Token). token.word.t) sentence)) % 2 == 0

unfoldable pub marked_from : (i : ℕ) → List Token → List Text
marked_from i [] = []
marked_from i (token ∷ tokens) =
    (mark_tag i ++ escape_xml token.spoken) ∷ marked_from (i + 1) tokens

abbrev pub sum_lengths : List SegmentWord → ℕ
sum_lengths [] = 0
sum_lengths (word ∷ words) = length word.t + sum_lengths words

unfoldable pub to_segment : ℕ → List Token → SsmlSegment
unfolding marked_from
to_segment index tokens =
    let words = map (λ (token : Token). token.word) tokens in
    record {
      index = index;
      ssml = codes "<speak>" ++ (join (codes " ") (marked_from 0 tokens) ++ codes "</speak>");
      words = words;
      char_count = sum_lengths words + length words - 1;
    }

-- The variables of `buildSsmlSegments`.
pub record Draft : Type 0 where
  pub segments : List SsmlSegment
  pub current : List Token
  pub bytes : ℕ

unfoldable pub close : Draft → Draft
close d = elim d.current [
  | [] ↦ d
  | t ∷ ts ↦ record {
    segments = d.segments ++ (to_segment (length d.segments) (t ∷ ts) ∷ []);
    current = [];
    bytes = frame_bytes;
  }
]

abbrev pub push_all : List Token → (added : ℕ) → Draft → Draft
push_all tokens added d = record d { bytes = d.bytes + added; current = d.current ++ tokens }

unfoldable pub fit : List Token → Draft → Draft
unfolding close
fit tokens d =
    let added = bytes_of tokens (length d.current) in
    if ltb 0 (length d.current) && ltb max_ssml_bytes (d.bytes + added)
    then push_all tokens (bytes_of tokens 0) (close d)
    else push_all tokens added d

unfoldable pub fit_each : List Token → Draft → Draft
unfolding fit
fit_each [] d = d
fit_each (token ∷ tokens) d = fit_each tokens (fit (token ∷ []) d)

abbrev pub close_if : Bool → Draft → Draft
close_if true d = close d
close_if false d = d

unfoldable pub place : List Token → Draft → Draft
unfolding fit fit_each close is_anchor
place sentence d =
    let placed : Draft =
      if leb (frame_bytes + bytes_of sentence 0) max_ssml_bytes
      then fit sentence d
      else fit_each sentence d in
    close_if (leb soft_min_ssml_bytes placed.bytes && is_anchor sentence) placed

unfoldable pub place_all : List (List Token) → Draft → Draft
unfolding place
place_all [] d = d
place_all (sentence ∷ sentences) d = place_all sentences (place sentence d)

abbrev pub empty_draft : Draft
empty_draft = record { segments = []; current = []; bytes = frame_bytes }

unfoldable pub build_ssml_segments : Pronunciation → List PageText → List SsmlSegment
unfolding tokenize split_sentences place_all close
build_ssml_segments pronounce pages =
    (close (place_all (split_sentences (tokenize pronounce pages)) empty_draft)).segments
