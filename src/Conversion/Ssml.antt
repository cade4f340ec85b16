-- ===== src/Conversion/Ssml.antt =====
-- The SSML of conversion/domain/services/ssml-segmenter.ts: escapes, marks and sizes.
pub mod Sizes
use voxkivre_backend.Prelude.{
  ℕ, ◌+◌, ◌-◌, ◌==◌, ltb, Bool, true, false, List, [], ◌∷◌, ◌++◌, length, if◌then◌else◌,
}
use voxkivre_backend.Shared.Text.{Text, codes, decimal}
use voxkivre_backend.Shared.Text.Utf8.{code_points, sum_sizes}

pub record SegmentWord : Type 0 where
  pub t : Text
  pub p : ℕ

pub record Token : Type 0 where
  pub word : SegmentWord
  pub spoken : Text
  pub abbreviation : Bool
  pub bytes : ℕ

abbrev pub xml_escapes : ℕ → Text
xml_escapes c =
    if c == b'&'
    then codes "&amp;"
    else if c == b'<'
    then codes "&lt;"
    else if c == b'>'
    then codes "&gt;"
    else if c == 34
    then codes "&quot;"
    else if c == 39
    then codes "&apos;"
    else c ∷ []

unfoldable pub escape_xml : Text → Text
escape_xml [] = []
escape_xml (c ∷ cs) = xml_escapes c ++ escape_xml cs

unfoldable pub mark_tag : ℕ → Text
mark_tag local_index = codes "<mark name=\"w" ++ (decimal local_index ++ codes "\"/>")

-- `markTag(0).length - 1`
abbrev pub mark_frame_bytes : ℕ
mark_frame_bytes = 16

abbrev pub escape_extra_bytes : ℕ → ℕ
escape_extra_bytes c = length (xml_escapes c) - 1

abbrev pub escaped_size : ℕ → ℕ
escaped_size code =
    if ltb code 0x80
    then 1 + escape_extra_bytes code
    else if ltb code 0x800
    then 2
    else if ltb code 0x10000
    then 3
    else 4

unfoldable pub escaped_byte_length : Text → ℕ
escaped_byte_length text = sum_sizes escaped_size (code_points text)

unfoldable pub bytes_of : List Token → (start : ℕ) → ℕ
bytes_of [] start = 0
bytes_of (token ∷ tokens) start =
    (if start == 0 then 0 else 1)
    + mark_frame_bytes
    + length (decimal start)
    + token.bytes
    + bytes_of tokens (start + 1)
