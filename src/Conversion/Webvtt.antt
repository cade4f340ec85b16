-- ===== src/Conversion/Webvtt.antt =====
-- conversion/domain/services/webvtt.ts
pub mod Cues
use voxkivre_backend.Prelude.{ℕ, ◌+◌, ◌/◌, ◌%◌, ◌==◌, max, List, [], ◌∷◌, ◌++◌, map, if◌then◌else◌}
use voxkivre_backend.Shared.Text.{Text, codes, decimal, pad_start, join}
use voxkivre_backend.Conversion.Timeline.{TimedWord}

abbrev pub min_cue_ms : ℕ
min_cue_ms = 1

unfoldable pub timestamp : ℕ → Text
unfolding decimal
timestamp ms =
    let hours = ms / 3_600_000 in
    let minutes = ms % 3_600_000 / 60_000 in
    let seconds = ms % 60_000 / 1000 in
    let millis = ms % 1000 in
    pad_start 2 (decimal hours)
    ++ (codes ":"
        ++ (pad_start 2 (decimal minutes)
            ++ (codes ":"
                ++ (pad_start 2 (decimal seconds) ++ (codes "." ++ pad_start 3 (decimal millis))))))

-- `replaceAll(c, by)` for a text of one unit.
unfoldable pub replace_all : ℕ → (by : Text) → Text → Text
replace_all c by [] = []
replace_all c by (x ∷ xs) = (if x == c then by else x ∷ []) ++ replace_all c by xs

unfoldable pub escape_cue_text : Text → Text
unfolding replace_all
escape_cue_text text =
    replace_all b'>' (codes "&gt;")
      (replace_all b'<' (codes "&lt;") (replace_all b'&' (codes "&amp;") text))

abbrev pub newline : Text
newline = 10 ∷ []

abbrev pub cue_end : TimedWord → ℕ
cue_end word = max word.end_ms (word.start_ms + min_cue_ms)

unfoldable pub cue : TimedWord → Text
unfolding timestamp escape_cue_text
cue word =
    decimal word.index
    ++ (newline
        ++ (timestamp word.start_ms
            ++ (codes " --> "
                ++ (timestamp (cue_end word)
                    ++ (newline ++ (escape_cue_text word.text ++ newline))))))

unfoldable pub build_web_vtt : List TimedWord → Text
unfolding cue
build_web_vtt words = join newline ((codes "WEBVTT" ++ newline) ∷ map cue words)
