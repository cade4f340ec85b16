-- ===== src/Conversion/Timeline/Ordered.antt =====
-- The words of a part are said one after the other, within the part.
use voxkivre_backend.Prelude.{
  ℕ, ◌+◌, ◌≤◌, ◌≡◌, refl, min, max, List, [], ◌∷◌, ◌++◌, Option, none, some, length, map, suc, ap,
  ◌∙◌, subst, arith,
}
use mathlib.Core.List.{map-append}
use voxkivre_backend.Conversion.Ssml.{SegmentWord}
use voxkivre_backend.Conversion.Timeline.{
  TimedWord, TimelineSegment, known_of, starts_from, never_back, word_starts, timed_from,
  timeline_from, build_part_timeline, head_or,
}

abbrev pub total_ms : List TimelineSegment → ℕ
total_ms [] = 0
total_ms (segment ∷ segments) = segment.duration_ms + total_ms segments

-- Each word ends no earlier than it starts, the next one starts no earlier than that, and the
-- last one ends by `until`.
abbrev pub FollowEachOther : (from until : ℕ) → List TimedWord → Type 0
FollowEachOther from until [] = from ≤ until
FollowEachOther from until (word ∷ words) =
    (from ≤ word.start_ms) × (word.start_ms ≤ word.end_ms) × FollowEachOther word.end_ms until words

FollowEachOther-append :
    (from middle until : ℕ) (xs ys : List TimedWord)
    → FollowEachOther from middle xs
    → FollowEachOther middle until ys
    → FollowEachOther from until (xs ++ ys)
FollowEachOther-append from middle until [] [] h k = omega arith
FollowEachOther-append from middle until [] (y ∷ ys) h (c, d, k) = (omega arith, d, k)
FollowEachOther-append from middle until (x ∷ xs) ys (a, b, h) k =
    (a, b, FollowEachOther-append x.end_ms middle until xs ys h k)

-- Starts that never go back.
abbrev Rise : ℕ → List ℕ → Type 0
Rise previous [] = Unit
Rise previous (start ∷ starts) = (previous ≤ start) × Rise start starts

never_back-Rise : (previous : ℕ) (starts : List ℕ) → Rise previous (never_back previous starts)
unfolding never_back
never_back-Rise previous [] = tt
never_back-Rise previous (start ∷ starts) =
    (omega arith, never_back-Rise (max start previous) starts)

timed_from-FollowEachOther :
    (offset duration_ms first i from previous : ℕ) (words : List SegmentWord) (starts : List ℕ)
    → Rise previous starts
    → from ≤ offset + min (head_or duration_ms starts) duration_ms
    → FollowEachOther from
        (offset + duration_ms)
        (timed_from offset duration_ms first i words starts)
unfolding timed_from
timed_from-FollowEachOther offset duration_ms first i from previous [] starts h le = omega arith
timed_from-FollowEachOther offset duration_ms first i from previous (w ∷ ws) [] h le = omega arith
timed_from-FollowEachOther offset duration_ms first i from previous (w ∷ ws) (s ∷ []) h le = (
  le,
  omega arith,
  timed_from-FollowEachOther offset duration_ms first (i + 1) _ s ws [] tt (omega arith),
)
timed_from-FollowEachOther offset duration_ms first i from previous (w ∷ ws) (s ∷ s' ∷ ss) (_, h)
      le =
    (
      le,
      omega arith,
      timed_from-FollowEachOther offset duration_ms first (i + 1) _ s ws (s' ∷ ss) h (omega arith),
    )

timeline_from-FollowEachOther :
    (offset : ℕ) (segments : List TimelineSegment)
    → FollowEachOther offset (offset + total_ms segments) (timeline_from offset segments)
unfolding timeline_from word_starts
timeline_from-FollowEachOther offset [] = omega arith
timeline_from-FollowEachOther offset (segment ∷ segments) =
    let starts =
      never_back 0
        (starts_from 0 (known_of segment.words segment.timepoints) segment.duration_ms) in
    let sum : offset + segment.duration_ms + total_ms segments
        ≡ offset + (segment.duration_ms + total_ms segments) =
      omega arith in
    FollowEachOther-append offset (offset + segment.duration_ms) _
      (timed_from offset segment.duration_ms segment.first_word_index 0 segment.words starts)
      (timeline_from (offset + segment.duration_ms) segments)
      (timed_from-FollowEachOther offset segment.duration_ms segment.first_word_index 0 offset 0
        segment.words starts (never_back-Rise 0 _) (omega arith))
      (subst
        (λ until.
          FollowEachOther (offset + segment.duration_ms) until
            (timeline_from (offset + segment.duration_ms) segments))
        sum (timeline_from-FollowEachOther (offset + segment.duration_ms) segments))

-- The words of a part are in order: none ends before it starts or after the next one starts, and
-- the last ends by the end of the part.
pub build_part_timeline-FollowEachOther :
    (segments : List TimelineSegment)
    → FollowEachOther 0 (total_ms segments) (build_part_timeline segments)
unfolding build_part_timeline
build_part_timeline-FollowEachOther segments =
    let sum : 0 + total_ms segments ≡ total_ms segments = omega arith in
    subst (λ until. FollowEachOther 0 until (timeline_from 0 segments)) sum
      (timeline_from-FollowEachOther 0 segments)

abbrev pub words_of_all : List TimelineSegment → List SegmentWord
words_of_all [] = []
words_of_all (segment ∷ segments) = segment.words ++ words_of_all segments

abbrev pub word_of : TimedWord → SegmentWord
word_of word = record { t = word.text; p = word.page }

length-known_of :
    (words : List SegmentWord) (marks : List (Option ℕ))
    → length (known_of words marks) ≡ length words
unfolding known_of
length-known_of [] marks = refl
length-known_of (w ∷ ws) [] = ap suc (length-known_of ws [])
length-known_of (w ∷ ws) (m ∷ ms) = ap suc (length-known_of ws ms)

length-starts_from :
    (before : ℕ) (known : List (Option ℕ)) (duration_ms : ℕ)
    → length (starts_from before known duration_ms) ≡ length known
unfolding starts_from
length-starts_from before [] duration_ms = refl
length-starts_from before (some value ∷ known) duration_ms =
    ap suc (length-starts_from value known duration_ms)
length-starts_from before (none ∷ known) duration_ms =
    ap suc (length-starts_from _ known duration_ms)

length-never_back :
    (previous : ℕ) (starts : List ℕ) → length (never_back previous starts) ≡ length starts
unfolding never_back
length-never_back previous [] = refl
length-never_back previous (start ∷ starts) = ap suc (length-never_back (max start previous) starts)

timed_from-words :
    (offset duration_ms first i : ℕ) (words : List SegmentWord) (starts : List ℕ)
    → length starts ≡ length words
    → map word_of (timed_from offset duration_ms first i words starts) ≡ words
unfolding timed_from
timed_from-words offset duration_ms first i [] starts e = refl
timed_from-words offset duration_ms first i (w ∷ ws) [] e = absurd (omega arith)
timed_from-words offset duration_ms first i (w ∷ ws) (s ∷ ss) e =
    ap (λ rest. w ∷ rest) (timed_from-words offset duration_ms first (i + 1) ws ss (omega arith))

timeline_from-words :
    (offset : ℕ) (segments : List TimelineSegment)
    → map word_of (timeline_from offset segments) ≡ words_of_all segments
unfolding timeline_from word_starts
timeline_from-words offset [] = refl
timeline_from-words offset (segment ∷ segments) =
    let enough =
      length-never_back 0 _
      ∙ length-starts_from 0 (known_of segment.words segment.timepoints) segment.duration_ms
      ∙ length-known_of segment.words segment.timepoints in
    map-append word_of _ (timeline_from (offset + segment.duration_ms) segments)
    ∙ ap (λ ws. ws ++ map word_of (timeline_from (offset + segment.duration_ms) segments))
        (timed_from-words offset segment.duration_ms segment.first_word_index 0 segment.words _
          enough)
    ∙ ap (λ ws. segment.words ++ ws) (timeline_from-words (offset + segment.duration_ms) segments)

-- Every word of the part has its place on the timeline, once and in order, with or without a mark
-- of the engine.
pub build_part_timeline-words :
    (segments : List TimelineSegment)
    → map word_of (build_part_timeline segments) ≡ words_of_all segments
unfolding build_part_timeline
build_part_timeline-words segments = timeline_from-words 0 segments
