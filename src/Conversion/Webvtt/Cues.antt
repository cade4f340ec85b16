-- ===== src/Conversion/Webvtt/Cues.antt =====
-- What a reader gets back from the text of a cue.
use voxkivre_backend.Prelude.{
  ℕ, ◌==◌, ◌≡◌, refl, ap, sym, ◌∙◌, [], ◌∷◌, ◌++◌, arith, if◌then◌else◌, Bool, true, false, ◌&&◌,
  zero, suc, exists,
}
use mathlib.Core.List.{append_assoc}
use voxkivre_backend.Shared.Text.{Text, codes}
use voxkivre_backend.Conversion.Webvtt.{replace_all, escape_cue_text}

replace_all-append :
    (c : ℕ) (by xs ys : Text)
    → replace_all c by (xs ++ ys) ≡ replace_all c by xs ++ replace_all c by ys
unfolding replace_all
replace_all-append c by [] ys = refl
replace_all-append c by (x ∷ xs) ys =
    ap (λ t. (if x == c then by else x ∷ []) ++ t) (replace_all-append c by xs ys)
    ∙ sym (append_assoc (if x == c then by else x ∷ []) (replace_all c by xs) (replace_all c by ys))

-- The references of the specification of WebVTT.
abbrev entity : ℕ → Text
entity c =
    if c == b'&'
    then codes "&amp;"
    else if c == b'<'
    then codes "&lt;"
    else if c == b'>'
    then codes "&gt;"
    else c ∷ []

abbrev entities : Text → Text
entities [] = []
entities (c ∷ cs) = entity c ++ entities cs

escape_one : (c : ℕ) → escape_cue_text (c ∷ []) ≡ entity c
unfolding escape_cue_text replace_all
escape_one c = ground arith

escape_cue_text-append :
    (xs ys : Text) → escape_cue_text (xs ++ ys) ≡ escape_cue_text xs ++ escape_cue_text ys
unfolding escape_cue_text
escape_cue_text-append xs ys =
    let amp = replace_all b'&' (codes "&amp;") in
    let lt = replace_all b'<' (codes "&lt;") in
    ap (λ t. replace_all b'>' (codes "&gt;") (replace_all b'<' (codes "&lt;") t))
      (replace_all-append b'&' (codes "&amp;") xs ys)
    ∙ ap (replace_all b'>' (codes "&gt;"))
        (replace_all-append b'<' (codes "&lt;") (amp xs) (amp ys))
    ∙ replace_all-append b'>' (codes "&gt;") (lt (amp xs)) (lt (amp ys))

-- The three replacements, one after the other, write one reference for each reserved character.
escape_cue_text-entities : (t : Text) → escape_cue_text t ≡ entities t
unfolding escape_cue_text replace_all
escape_cue_text-entities [] = refl
escape_cue_text-entities (c ∷ cs) =
    escape_cue_text-append (c ∷ []) cs
    ∙ ap (λ t. t ++ escape_cue_text cs) (escape_one c)
    ∙ ap (λ t. entity c ++ t) (escape_cue_text-entities cs)

abbrev starts_with : Text → Text → Bool
starts_with [] text = true
starts_with (c ∷ cs) [] = false
starts_with (c ∷ cs) (x ∷ xs) = c == x && starts_with cs xs

-- The character that a reference at the start of a text stands for, and how many units after the
-- first one belong to it; a `&` that starts no reference is shown.
abbrev reference : ℕ → Text → ℕ × ℕ
reference c cs =
    if starts_with (codes "&amp;") (c ∷ cs)
    then (b'&', 4)
    else if starts_with (codes "&lt;") (c ∷ cs)
    then (b'<', 3)
    else if starts_with (codes "&gt;") (c ∷ cs)
    then (b'>', 3)
    else (c, 0)

abbrev shown : ℕ × ℕ → (ℕ → Text) → Text
shown (c, skipped) read = c ∷ read skipped

-- The tokenizer of the text of a cue: a `<` opens a tag, which is not shown and ends at the next
-- `>`; of the units of a reference, `skipped` are left.
unfoldable pub read_from : (in_tag : Bool) (skipped : ℕ) → Text → Text
read_from in_tag skipped [] = []
read_from true skipped (c ∷ cs) =
    let after_tag = read_from false 0 cs in
    let inside = read_from true 0 cs in if c == b'>' then after_tag else inside
read_from false zero (c ∷ cs) =
    let tag = read_from true 0 cs in
    let text = shown (reference c cs) (λ skipped. read_from false skipped cs) in
    if c == b'<' then tag else text
read_from false (suc skipped) (c ∷ cs) = read_from false skipped cs

read_entity :
    (c : ℕ) (rest : Text) → read_from false 0 (entity c ++ rest) ≡ c ∷ read_from false 0 rest
unfolding read_from
read_entity c rest = ground arith

read_entities : (t : Text) → read_from false 0 (entities t) ≡ t
unfolding read_from
read_entities [] = refl
read_entities (c ∷ cs) = read_entity c (entities cs) ∙ ap (λ t. c ∷ t) (read_entities cs)

no_bracket : (t : Text) → exists (λ c. c == b'>') (entities t) ≡ false
no_bracket [] = refl
no_bracket (c ∷ cs) = ground (arith, no_bracket cs)

-- A reader of WebVTT, for which `<` opens a tag that is not shown and `&amp;`, `&lt;` and `&gt;`
-- stand for one character each, shows the word as it is, whatever the word; and no `>` is written,
-- so no word ends a cue early by an arrow.
pub read-escape_cue_text :
    (t : Text)
    → (read_from false 0 (escape_cue_text t) ≡ t)
      × (exists (λ c. c == b'>') (escape_cue_text t) ≡ false)
read-escape_cue_text t = (
  ap (read_from false 0) (escape_cue_text-entities t) ∙ read_entities t,
  ap (exists (λ c. c == b'>')) (escape_cue_text-entities t) ∙ no_bracket t,
)
