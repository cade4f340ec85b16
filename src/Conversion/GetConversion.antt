-- ===== src/Conversion/GetConversion.antt =====
-- conversion/application/use-cases/get-conversion.use-case.ts and
-- get-conversion-manifest.use-case.ts. The signature of a URL is an argument.
use voxkivre_backend.Prelude.{
  ℕ, ◌+◌, ◌*◌, List, [], ◌∷◌, exists, Option, none, some, Result, ok, err, if◌then◌else◌,
}
use voxkivre_backend.Shared.Text.{Text, same_text}
use voxkivre_backend.Conversion.Status.{
  ConversionStatus, Conversion, ConversionPart, AssembledPart, DeliveredFile,
}
use voxkivre_backend.Conversion.Store.{World, is_set}
use voxkivre_backend.Conversion.Store.Reads.{find_by_id_for_owner}
use voxkivre_backend.Conversion.Store.Lists.{
  count_synthesized_segments, count_assembled_parts, list_parts,
}
use voxkivre_backend.Conversion.Manifest.{ConversionManifest, build_manifest, file_name}

pub data GetError : Type 0 where
  conversion_not_found : (id : ℕ) → GetError
  conversion_not_ready : (id : ℕ) → ConversionStatus → GetError

pub record ConversionProgress : Type 0 where
  pub conversion : Conversion
  pub segments_done : ℕ
  pub parts_ready : ℕ

abbrev pub progress_of : Conversion → Option ℕ → World → ConversionProgress
progress_of c none w = record { conversion = c; segments_done = 0; parts_ready = 0 }
progress_of c (some n) w = record {
  conversion = c;
  segments_done = count_synthesized_segments c.id w;
  parts_ready = count_assembled_parts c.id w;
}

abbrev pub progress_found :
    (id : ℕ) → Option Conversion → World → Result ConversionProgress GetError
progress_found id none w = err (conversion_not_found id)
progress_found id (some c) w = ok (progress_of c c.segment_count w)

unfoldable pub get_conversion : (owner id : ℕ) → World → Result ConversionProgress GetError
get_conversion owner id w = progress_found id (find_by_id_for_owner id owner w) w

abbrev pub download_url_ttl_seconds : ℕ
download_url_ttl_seconds = 3600

pub record DownloadableManifest : Type 0 where
  pub manifest : ConversionManifest
  pub urls : List (Text × Text)
  pub urls_expire_at : ℕ

-- `Map.set`: a name that is there keeps its place.
abbrev pub set_url : Text → Text → List (Text × Text) → List (Text × Text)
set_url name url [] = (name, url) ∷ []
set_url name url ((n, u) ∷ urls) =
    if same_text n name then (n, url) ∷ urls else (n, u) ∷ set_url name url urls

abbrev pub set_file : (Text → Text) → DeliveredFile → List (Text × Text) → List (Text × Text)
set_file presign file urls = set_url (file_name file.key) (presign file.key) urls

abbrev pub set_files :
    (Text → Text) → Option AssembledPart → List (Text × Text) → List (Text × Text)
set_files presign none urls = urls
set_files presign (some part) urls = set_file presign part.vtt (set_file presign part.audio urls)

unfoldable pub urls_from :
    (Text → Text) → List ConversionPart → List (Text × Text) → List (Text × Text)
urls_from presign [] urls = urls
urls_from presign (part ∷ parts) urls =
    urls_from presign parts (set_files presign part.assembled urls)

abbrev pub manifest_if_ready :
    (Text → Text)
    → (now : ℕ) → Conversion
    → List ConversionPart
    → Result DownloadableManifest GetError
manifest_if_ready presign now c parts =
    if exists (λ part. is_set part.assembled) parts
    then ok (record {
      manifest = build_manifest c parts;
      urls = urls_from presign parts [];
      urls_expire_at = now + download_url_ttl_seconds * 1000;
    })
    else err (conversion_not_ready c.id c.status)

abbrev pub manifest_found :
    (Text → Text) → (now id : ℕ) → Option Conversion → World → Result DownloadableManifest GetError
manifest_found presign now id none w = err (conversion_not_found id)
manifest_found presign now id (some c) w = manifest_if_ready presign now c (list_parts c.id w)

unfoldable pub get_conversion_manifest :
    (Text → Text) → (now owner id : ℕ) → World → Result DownloadableManifest GetError
unfolding urls_from
get_conversion_manifest presign now owner id w =
    manifest_found presign now id (find_by_id_for_owner id owner w) w
