-- ===== src/Conversion/Manifest.antt =====
-- conversion/domain/services/conversion-manifest.ts: what a reader needs of a converted book.
use voxkivre_backend.Prelude.{
  ℕ, ◌+◌, ◌==◌, ltb, ◌&&◌, Bool, List, [], ◌∷◌, length, all, Option, none, some, if◌then◌else◌,
}
use voxkivre_backend.Shared.Text.{Text}
use voxkivre_backend.Conversion.Status.{
  Conversion, ConversionPart, AssembledPart, DeliveredFile, PageStart,
}
use voxkivre_backend.Conversion.Store.{is_set}

abbrev pub manifest_version : ℕ
manifest_version = 1

pub record ManifestFile : Type 0 where
  pub name : Text
  pub bytes : ℕ
  pub sha256 : Text

pub data PartStatus : Type 0 where
  ready pending : PartStatus

pub record ManifestPart : Type 0 where
  pub index : ℕ
  pub status : PartStatus
  pub first_word_index : ℕ
  pub duration_ms : Option ℕ
  pub start_ms : Option ℕ
  pub word_count : Option ℕ
  pub page_starts : List PageStart
  pub audio : Option ManifestFile
  pub vtt : Option ManifestFile

pub record ConversionManifest : Type 0 where
  pub version : ℕ
  pub conversion_id : ℕ
  pub document_id : ℕ
  pub voice_id : Text
  pub text_revision : ℕ
  pub complete : Bool
  pub duration_ms : Option ℕ
  pub part_count : ℕ
  pub parts : List ManifestPart

-- What follows the last `/`, the whole text if there is none.
unfoldable pub name_after : (name : Text) → Text → Text
name_after name [] = name
name_after name (c ∷ cs) = name_after (if c == b'/' then cs else name) cs

unfoldable pub file_name : Text → Text
unfolding name_after
file_name key = name_after key key

abbrev pub manifest_file : DeliveredFile → ManifestFile
manifest_file file = record { name = file_name file.key; bytes = file.bytes; sha256 = file.sha256 }

-- `elapsed`, after a part.
abbrev pub elapsed_after : Option ℕ → Option AssembledPart → Option ℕ
elapsed_after none assembled = none
elapsed_after (some elapsed) none = none
elapsed_after (some elapsed) (some part) = some (elapsed + part.duration_ms)

abbrev pub manifest_part : Option ℕ → ConversionPart → Option AssembledPart → ManifestPart
manifest_part elapsed part none = record {
  index = part.index;
  status = pending;
  first_word_index = part.first_word_index;
  duration_ms = none;
  start_ms = none;
  word_count = none;
  page_starts = [];
  audio = none;
  vtt = none;
}
manifest_part elapsed part (some assembled) = record {
  index = part.index;
  status = ready;
  first_word_index = part.first_word_index;
  duration_ms = some assembled.duration_ms;
  start_ms = elapsed;
  word_count = some assembled.word_count;
  page_starts = assembled.page_starts;
  audio = some (manifest_file assembled.audio);
  vtt = some (manifest_file assembled.vtt);
}

unfoldable pub manifest_parts : (elapsed : Option ℕ) → List ConversionPart → List ManifestPart
manifest_parts elapsed [] = []
manifest_parts elapsed (part ∷ parts) =
    manifest_part elapsed part part.assembled
    ∷ manifest_parts (elapsed_after elapsed part.assembled) parts

unfoldable pub elapsed_at_end : (elapsed : Option ℕ) → List ConversionPart → Option ℕ
elapsed_at_end elapsed [] = elapsed
elapsed_at_end elapsed (part ∷ parts) = elapsed_at_end (elapsed_after elapsed part.assembled) parts

abbrev pub is_complete : List ConversionPart → Bool
is_complete parts = ltb 0 (length parts) && all (λ part. is_set part.assembled) parts

unfoldable pub build_manifest : Conversion → List ConversionPart → ConversionManifest
unfolding manifest_parts elapsed_at_end
build_manifest c parts = record {
  version = manifest_version;
  conversion_id = c.id;
  document_id = c.document_id;
  voice_id = c.voice_id;
  text_revision = c.text_revision;
  complete = is_complete parts;
  duration_ms = if is_complete parts then elapsed_at_end (some 0) parts else none;
  part_count = length parts;
  parts = manifest_parts (some 0) parts;
}
