-- ===== src/Conversion/Timeline.antt =====
-- conversion/domain/services/part-timeline.ts: when each word of a part is said. A time in
-- seconds is given in thousandths, as the marks of the engine are: `seconds * 1000` is a whole
-- number.
pub mod Ordered
use voxkivre_backend.Prelude.{
  ℕ, zero, suc, ◌+◌, ◌-◌, ◌*◌, ◌/◌, leb, min, max, List, [], ◌∷◌, ◌++◌, Option, none, some, map,
  if◌then◌else◌,
}
use voxkivre_backend.Shared.Text.{Text}
use voxkivre_backend.Conversion.Ssml.{SegmentWord}

pub record TimedWord : Type 0 where
  pub index : ℕ
  pub text : Text
  pub page : ℕ
  pub start_ms : ℕ
  pub end_ms : ℕ

pub record TimelineSegment : Type 0 where
  pub first_word_index : ℕ
  pub words : List SegmentWord
  -- in thousandths of a second
  pub timepoints : List (Option ℕ)
  pub duration_ms : ℕ

-- The mark of each word; `at` of a list of marks that is too short gives none.
unfoldable pub known_of : List SegmentWord → List (Option ℕ) → List (Option ℕ)
known_of [] marks = []
known_of (w ∷ words) [] = none ∷ known_of words []
known_of (w ∷ words) (mark ∷ marks) = mark ∷ known_of words marks

-- Past the end, or at the next mark that is known: its distance and its time, or the end of the
-- segment.
unfoldable pub next_known : List (Option ℕ) → (duration_ms : ℕ) → ℕ × ℕ
next_known [] duration_ms = (0, duration_ms)
next_known (some value ∷ known) duration_ms = (0, value)
next_known (none ∷ known) duration_ms =
    let (further, after) = next_known known duration_ms in (further + 1, after)

-- Math.round(before + (after - before) / gap), where gap is at least 2. The time after may be
-- the smaller one. `Math.round` takes the half up.
unfoldable pub interpolated : (before after gap : ℕ) → ℕ
interpolated before after gap = (2 * (before * (gap - 1) + after) + gap) / (2 * gap)

unfoldable pub starts_from : (before : ℕ) → List (Option ℕ) → (duration_ms : ℕ) → List ℕ
unfolding next_known interpolated
starts_from before [] duration_ms = []
starts_from before (some value ∷ known) duration_ms = value ∷ starts_from value known duration_ms
starts_from before (none ∷ known) duration_ms =
    let (further, after) = next_known known duration_ms in
    let start = interpolated before after (further + 2) in
    start ∷ starts_from start known duration_ms

-- The second loop: no start before the one that precedes it.
unfoldable pub never_back : (previous : ℕ) → List ℕ → List ℕ
never_back previous [] = []
never_back previous (start ∷ starts) = max start previous ∷ never_back (max start previous) starts

unfoldable pub word_starts : TimelineSegment → List ℕ
unfolding starts_from never_back known_of
word_starts segment =
    never_back 0 (starts_from 0 (known_of segment.words segment.timepoints) segment.duration_ms)

abbrev pub head_or : ℕ → List ℕ → ℕ
head_or other [] = other
head_or other (start ∷ starts) = start

-- The words of a segment from position i on, with their starts.
unfoldable pub timed_from :
    (offset duration_ms first i : ℕ) → List SegmentWord → List ℕ → List TimedWord
timed_from offset duration_ms first i [] starts = []
timed_from offset duration_ms first i (word ∷ words) [] = []
timed_from offset duration_ms first i (word ∷ words) (start ∷ starts) =
    record {
      index = first + i;
      text = word.t;
      page = word.p;
      start_ms = offset + min start duration_ms;
      end_ms = offset + min (head_or duration_ms starts) duration_ms;
    }
    ∷ timed_from offset duration_ms first (i + 1) words starts

unfoldable pub timeline_from : (offset : ℕ) → List TimelineSegment → List TimedWord
unfolding timed_from word_starts
timeline_from offset [] = []
timeline_from offset (segment ∷ segments) =
    timed_from offset segment.duration_ms segment.first_word_index 0 segment.words
      (word_starts segment)
    ++ timeline_from (offset + segment.duration_ms) segments

unfoldable pub build_part_timeline : List TimelineSegment → List TimedWord
unfolding timeline_from
build_part_timeline segments = timeline_from 0 segments
