-- ===== src/Conversion/Overview/ByDocument.antt =====
-- The overviews of a page of the library (conversion-catalog.service.ts), and the voices on offer
-- (application/use-cases/list-voices.use-case.ts).
use voxkivre_backend.Prelude.{
  ℕ, ◌==◌, Bool, List, [], ◌∷◌, ◌++◌, map, Option, none, some, if◌then◌else◌,
}
use voxkivre_backend.Shared.Text.{same_text}
use voxkivre_backend.Conversion.Status.{Voice, voices, default_voice_id, Conversion, ConversionPart}
use voxkivre_backend.Conversion.Store.{World}
use voxkivre_backend.Conversion.Store.Lists.{list_for_documents, list_parts_of}
use voxkivre_backend.Conversion.Overview.{
  ConversionOverview, select_library_conversion, to_overview,
}

-- `groupBy`: the groups in the order in which their keys come first, each in the order of the list.
abbrev pub Groups : Type 0 → Type 0
Groups A = List (ℕ × List A)

module _ {A : Type 0} where
  unfoldable pub add_to_group : (key : ℕ) → A → Groups A → Groups A
  add_to_group key item [] = (key, item ∷ []) ∷ []
  add_to_group key item ((k, group) ∷ groups) =
      let rest = add_to_group key item groups in
      if k == key then (k, group ++ (item ∷ [])) ∷ groups else (k, group) ∷ rest

  unfoldable pub group_from : (key_of : A → ℕ) → Groups A → List A → Groups A
  unfolding add_to_group
  group_from key_of groups [] = groups
  group_from key_of groups (item ∷ items) =
      group_from key_of (add_to_group (key_of item) item groups) items

  unfoldable pub group_by : List A → (key_of : A → ℕ) → Groups A
  unfolding group_from
  group_by items key_of = group_from key_of [] items

  -- `parts.get(c.id) ?? []`
  abbrev pub group_of : ℕ → Groups A → List A
  group_of key [] = []
  group_of key ((k, group) ∷ groups) = if k == key then group else group_of key groups

abbrev pub with_selected : Option Conversion → List Conversion → List Conversion
with_selected none cs = cs
with_selected (some c) cs = c ∷ cs

abbrev pub selected_of : Groups Conversion → List Conversion
selected_of [] = []
selected_of ((document, candidates) ∷ groups) =
    with_selected (select_library_conversion candidates) (selected_of groups)

-- The entries of the map that the source answers, in its order; no two have one document.
unfoldable pub overviews_by_document :
    (owner : ℕ) → (documents : List ℕ) → World → List (ℕ × ConversionOverview)
unfolding group_by
overviews_by_document owner documents w =
    let selected =
      selected_of
        (group_by (list_for_documents owner documents w) (λ (c : Conversion). c.document_id)) in
    let parts =
      group_by (list_parts_of (map (λ (c : Conversion). c.id) selected) w)
        (λ (part : ConversionPart). part.conversion_id) in
    map (λ (c : Conversion). (c.document_id, to_overview c (group_of c.id parts))) selected

pub record VoiceOption : Type 0 where
  pub voice : Voice
  pub is_default : Bool

unfoldable pub list_voices : List VoiceOption
list_voices =
    map
      (λ (voice : Voice). record {
        voice = voice;
        is_default = same_text voice.id default_voice_id;
      })
      voices
