-- ===== src/Shared/IdempotencyKey.antt =====
-- `IdempotencyKey.of` of shared/kernel/idempotency.ts. A text is the list of its code units. A
-- UUID is made of characters of the pattern, so the second test of the source changes nothing.
use voxkivre_backend.Prelude.{
  ℕ, ◌==◌, leb, ltb, ◌||◌, ◌&&◌, Bool, List, [], ◌∷◌, length, all, Option, none, some,
  if◌then◌else◌,
}
use mathlib.Core.List.{reverse}

-- What `trim` takes off, and `\s` matches.
abbrev pub is_space : ℕ → Bool
is_space c =
    (leb 9 c && leb c 13)
    || (c == 32)
    || (c == 160)
    || (c == 5760)
    || (leb 8192 c && leb c 8202)
    || (c == 8232)
    || (c == 8233)
    || (c == 8239)
    || (c == 8287)
    || (c == 12288)
    || (c == 65279)

abbrev pub trim_start : List ℕ → List ℕ
trim_start [] = []
trim_start (c ∷ cs) = if is_space c then trim_start cs else c ∷ cs

abbrev pub trim : List ℕ → List ℕ
trim cs = reverse (trim_start (reverse (trim_start cs)))

abbrev pub min_key_length : ℕ
min_key_length = 8

abbrev pub max_key_length : ℕ
max_key_length = 128

-- A-Z, a-z, 0-9, _ and -
abbrev pub is_key_char : ℕ → Bool
is_key_char c =
    (leb 65 c && leb c 90)
    || (leb 97 c && leb c 122)
    || (leb 48 c && leb c 57)
    || (c == 95)
    || (c == 45)

abbrev pub checked_key : List ℕ → Option (List ℕ)
checked_key trimmed =
    if ltb (length trimmed) min_key_length || ltb max_key_length (length trimmed)
    then none
    else if all is_key_char trimmed
    then some trimmed
    else none

unfoldable pub idempotency_key_from : List ℕ → Option (List ℕ)
idempotency_key_from raw = checked_key (trim raw)
