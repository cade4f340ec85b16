-- ===== src/Library/Tests.antt =====
-- The theorems on positions and anchors at concrete inputs: two devices that listen to one book,
-- and a bookmark in a page that has changed.
use voxkivre_backend.Prelude.{◌≡◌, ◌<◌, refl, true, false, exists, map, List, [], ◌∷◌, arith}
use voxkivre_backend.Shared.Text.{Text, codes}
use voxkivre_backend.Library.Anchor.{page_words, words_from, locate_anchor}
use voxkivre_backend.Library.Anchor.InPage.{opens_with_word, locate_anchor-inside}
use voxkivre_backend.Library.Positions.{ReadingPosition, position_key, save_if_newer}
use voxkivre_backend.Library.Positions.Newest.{is_outdated, save_if_newer-order}

abbrev on_the_phone : ReadingPosition
on_the_phone = record {
  conversion_id = 31;
  owner_id = 7;
  word_index = 120;
  audio_ms = 60000;
  recorded_at = 1000;
  updated_at = 5000;
}

abbrev on_the_tablet : ReadingPosition
on_the_tablet = record {
  conversion_id = 31;
  owner_id = 7;
  word_index = 80;
  audio_ms = 40000;
  recorded_at = 2000;
  updated_at = 4000;
}

abbrev others : List ReadingPosition
others = record on_the_phone { conversion_id = 32 } ∷ []

save_if_newer-order_example :
    ((save_if_newer on_the_tablet (save_if_newer on_the_phone others).1).1
      ≡ (save_if_newer on_the_phone (save_if_newer on_the_tablet others).1).1)
    × (exists
          (position_key 31)
          (save_if_newer on_the_tablet (save_if_newer on_the_phone others).1).1
        ≡ true)
    × (exists
          (is_outdated on_the_tablet)
          (save_if_newer on_the_tablet (save_if_newer on_the_phone others).1).1
        ≡ false)
save_if_newer-order_example =
    save_if_newer-order on_the_phone on_the_tablet others refl refl (omega arith)

abbrev as_written : Text → Text
as_written t = t

opens : opens_with_word (map as_written (page_words (codes "pleut fort"))) ≡ true
unfolding page_words words_from
opens = refl

locate_anchor-inside_example :
    (locate_anchor as_written
      (codes "Il" ∷ codes "pleut" ∷ codes "fort" ∷ [])
      7
      (codes "pleut fort")).word_index
    < 3
locate_anchor-inside_example =
    locate_anchor-inside as_written (codes "Il") (codes "pleut" ∷ codes "fort" ∷ []) 7
      (codes "pleut fort") refl opens
