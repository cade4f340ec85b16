-- ===== src/Conversion/Files.antt =====
-- conversion/domain/services/conversion-files.ts and segment-fingerprint.ts. The texts of
-- identifiers, `encodeURIComponent` and SHA-256 are parameters.
use voxkivre_backend.Prelude.{ℕ, ◌+◌, ◌∷◌, ◌++◌}
use voxkivre_backend.Shared.Text.{Text, codes, decimal, pad_start}

-- How identifiers are written in the key of a file, and the digest of a text.
pub record Names : Type 0 where
  pub encoded_owner : ℕ → Text
  pub conversion_uuid : ℕ → Text
  pub sha256 : Text → Text

pub record FileKeys : Type 0 where
  pub audio : Text
  pub vtt : Text

pub record CacheKeys : Type 0 where
  pub audio : Text
  pub marks : Text

unfoldable pub conversion_files_prefix : Names → (owner conversion : ℕ) → Text
conversion_files_prefix names owner conversion =
    codes "conversions/"
    ++ (names.encoded_owner owner ++ (codes "/" ++ names.conversion_uuid conversion))

unfoldable pub part_file_base : ℕ → Text
unfolding decimal
part_file_base part_index = codes "part-" ++ pad_start 3 (decimal (part_index + 1))

unfoldable pub part_file_keys : Names → (owner conversion part_index : ℕ) → FileKeys
unfolding conversion_files_prefix part_file_base
part_file_keys names owner conversion part_index =
    let base =
      conversion_files_prefix names owner conversion ++ (codes "/" ++ part_file_base part_index) in
    record { audio = base ++ codes ".mp3"; vtt = base ++ codes ".vtt" }

unfoldable pub manifest_key : Names → (owner conversion : ℕ) → Text
unfolding conversion_files_prefix
manifest_key names owner conversion =
    conversion_files_prefix names owner conversion ++ codes "/manifest.json"

-- The updates of a hash are those of the concatenation.
unfoldable pub segment_fingerprint : Names → (engine_signature ssml : Text) → Text
segment_fingerprint names engine_signature ssml = names.sha256 (engine_signature ++ (10 ∷ ssml))

unfoldable pub cache_keys_for : Text → CacheKeys
cache_keys_for fingerprint = record {
  audio = codes "tts-cache/" ++ (fingerprint ++ codes ".mp3");
  marks = codes "tts-cache/" ++ (fingerprint ++ codes ".json");
}
