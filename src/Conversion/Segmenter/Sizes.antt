-- ===== src/Conversion/Segmenter/Sizes.antt =====
-- A segment has the size that the segmenter counts.
use voxkivre_backend.Prelude.{
  ℕ, ◌+◌, ◌<◌, ◌==◌, ◌≡◌, refl, ap, ◌∙◌, false, List, [], ◌∷◌, ◌++◌, length, length-append, All,
  All-append, arith, if◌then◌else◌,
}
use mathlib.Core.List.{append_assoc}
use voxkivre_backend.Shared.Text.{Text, codes, decimal, join}
use voxkivre_backend.Shared.Text.Utf8.{
  IsAscii, byte_length, byte_length-append, byte_length-ascii, starts_low,
}
use voxkivre_backend.Shared.Text.Decimal.{decimal-IsAscii}
use voxkivre_backend.Conversion.Ssml.{Token, escape_xml, escaped_byte_length, mark_tag, bytes_of}
use voxkivre_backend.Conversion.Ssml.Sizes.{byte_length-escape_xml}
use voxkivre_backend.Conversion.Segmenter.{frame_bytes, marked_from, to_segment}

-- The size that a token carries is that of what the voice says.
abbrev pub IsSized : Token → Type 0
IsSized token = token.bytes ≡ escaped_byte_length token.spoken

mark_tag-IsAscii : (i : ℕ) → IsAscii (mark_tag i)
unfolding mark_tag
mark_tag-IsAscii i =
    All-append (λ c. c < 0x80) (codes "<mark name=\"w") (decimal i ++ codes "\"/>") (omega arith)
      (All-append (λ c. c < 0x80) (decimal i) (codes "\"/>") (decimal-IsAscii i) (omega arith))

length-mark_tag : (i : ℕ) → length (mark_tag i) ≡ 16 + length (decimal i)
unfolding mark_tag
length-mark_tag i = omega (arith, length-append (decimal i) (codes "\"/>"))

-- A marked word before the rest of the SSML.
byte_length-marked :
    (i : ℕ) (spoken rest : Text)
    → starts_low rest ≡ false
    → byte_length ((mark_tag i ++ escape_xml spoken) ++ rest)
      ≡ 16 + length (decimal i) + escaped_byte_length spoken + byte_length rest
byte_length-marked i spoken rest e =
    ap byte_length (append_assoc (mark_tag i) (escape_xml spoken) rest)
    ∙ omega (
      arith,
      byte_length-ascii (mark_tag i) (escape_xml spoken ++ rest) (mark_tag-IsAscii i),
      byte_length-append (escape_xml spoken) rest e,
      byte_length-escape_xml spoken,
      length-mark_tag i,
    )

abbrev one : ℕ
one = 1

byte_length-join :
    (i : ℕ) (t : Token) (ts : List Token) (rest : Text)
    → starts_low rest ≡ false
    → All IsSized (t ∷ ts)
    → byte_length (join (codes " ") (marked_from i (t ∷ ts)) ++ rest) + (if i == 0 then 0 else 1)
      ≡ bytes_of (t ∷ ts) i + byte_length rest
unfolding marked_from bytes_of
byte_length-join i t [] rest e (s, _) = omega (arith, byte_length-marked i t.spoken rest e, s)
byte_length-join i t (u ∷ us) rest e (s, h) =
    let J = join (codes " ") (marked_from (i + 1) (u ∷ us)) in
    let bound : (if i + 1 == 0 then 0 else 1) ≡ one = ground arith in
    let whole =
      ap byte_length (append_assoc (mark_tag i ++ escape_xml t.spoken) (codes " " ++ J) rest) in
    omega (
      arith,
      whole,
      byte_length-marked i t.spoken (codes " " ++ (J ++ rest)) refl,
      byte_length-ascii (codes " ") (J ++ rest) (omega arith),
      byte_length-join (i + 1) u us rest e h,
      bound,
      s,
    )

pub byte_length-ssml :
    (k : ℕ) (t : Token) (ts : List Token)
    → All IsSized (t ∷ ts)
    → byte_length (to_segment k (t ∷ ts)).ssml ≡ frame_bytes + bytes_of (t ∷ ts) 0
unfolding to_segment byte_length
byte_length-ssml k t ts h =
    let J = join (codes " ") (marked_from 0 (t ∷ ts)) in
    let closing : byte_length (codes "</speak>") ≡ 8 =
      byte_length-ascii (codes "</speak>") [] (omega arith) in
    omega (
      arith,
      byte_length-ascii (codes "<speak>") (J ++ codes "</speak>") (omega arith),
      byte_length-join 0 t ts (codes "</speak>") refl h,
      closing,
    )

bytes_of-append :
    (xs ys : List Token) (i : ℕ)
    → bytes_of (xs ++ ys) i ≡ bytes_of xs i + bytes_of ys (i + length xs)
unfolding bytes_of
bytes_of-append [] ys i = ground arith
bytes_of-append (x ∷ xs) ys i = ground (arith, bytes_of-append xs ys (i + 1))

pub bytes_of-next :
    (xs ys : List Token) → bytes_of (xs ++ ys) 0 ≡ bytes_of xs 0 + bytes_of ys (length xs)
bytes_of-next xs ys =
    let start : 0 + length xs ≡ length xs = omega arith in
    bytes_of-append xs ys 0 ∙ ap (λ n. bytes_of xs 0 + bytes_of ys n) start
