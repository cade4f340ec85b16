-- ===== src/Conversion/Tests.antt =====
-- The theorems on conversion at concrete inputs: a book of two pages that is launched, prepared,
-- spoken and assembled.
use voxkivre_backend.Prelude.{
  ℕ, ◌≡◌, ◌⊎◌, inl, inr, exists, ◌==◌, ◌≤◌, refl, Bool, true, false, List, [], ◌∷◌, map, none, some,
  find, All, done, ok, arith,
}
use voxkivre_backend.Shared.Text.{Text, codes, same_text}
use voxkivre_backend.Shared.Text.Utf8.{byte_length, code_points}
use voxkivre_backend.Billing.Tests.{offers}
use voxkivre_backend.Billing.ReserveQuota.{reserve_quota, reserve_in_transaction, reserve_new, book}
use voxkivre_backend.Billing.Period.{period_at}
use voxkivre_backend.Billing.Units.{units_of, units_for_chars, standard}
use voxkivre_backend.Billing.Allocation.{allocate, usable_from, split_refund}
use voxkivre_backend.Billing.UnitsLedger.{
  find_reservation, lock_balances, record_reservation, insert_reservation, apply_to_sources,
  apply_to_free, apply_to_pass, apply_to_wallet, charge_pass, charge_wallet, record_refund,
  mark_refunded, give_sources_back,
}
use voxkivre_backend.Billing.RefundQuota.{refund_quota, refund_reservation}
use voxkivre_backend.Conversion.Ssml.{escaped_byte_length}
use voxkivre_backend.Conversion.Segmenter.{
  PageText, SsmlSegment, Pronunciation, words_of, max_ssml_bytes, build_ssml_segments,
}
use voxkivre_backend.Conversion.Segmenter.Spoken.{texts_of, word_at}
use voxkivre_backend.Conversion.Segmenter.Fits.{max_spoken_bytes, build_ssml_segments-fit}
use voxkivre_backend.Conversion.Segmenter.Words.{
  words_of_all, AreNumbered, build_ssml_segments-words,
}
use voxkivre_backend.Conversion.PartPlan.{plan_parts}
use voxkivre_backend.Conversion.PartPlan.Covers.{AreConsecutive, plan_parts-AreConsecutive}
use voxkivre_backend.Conversion.Timeline.{TimelineSegment, build_part_timeline}
use voxkivre_backend.Conversion.Timeline.Ordered as Ordered
use voxkivre_backend.Conversion.Timeline.Ordered.{
  FollowEachOther, total_ms, word_of, build_part_timeline-FollowEachOther,
  build_part_timeline-words,
}
use voxkivre_backend.Conversion.Webvtt.{escape_cue_text}
use voxkivre_backend.Conversion.Webvtt.Cues.{read_from, read-escape_cue_text}
use voxkivre_backend.Conversion.Files.{Names}
use voxkivre_backend.Conversion.Status.{
  Voice, Conversion, queued, preparing, find_voice, default_voice_id, new_queued_conversion,
  tts_rejected, internal,
}
use voxkivre_backend.Conversion.Store.{
  World, Job, conversion_key, insert, mark_preparing, complete_preparation, mark_failed,
  consumed_chars,
}
use voxkivre_backend.Conversion.Store.Reads.{find_active}
use voxkivre_backend.Conversion.Jobs.{schedule_preparation}
use voxkivre_backend.Conversion.StartConversion.{
  StartConversionInput, SourceText, Launching, start_conversion, resume_or_launch, launch,
  reserve_and_insert,
}
use voxkivre_backend.Conversion.FailConversion.{fail_conversion, fail_and_refund}
use voxkivre_backend.Conversion.PrepareConversion.{Preparing, prepared_from, prepare_conversion}
use voxkivre_backend.Conversion.SynthesizeSegment.{Synthesizing, spoken, synthesize_segment}
use voxkivre_backend.Conversion.AssemblePart.{Assembling, assemble_part}
use voxkivre_backend.Conversion.System.{Reaches, prepares, Reaches-trans, Reaches-step, empty_world}
use voxkivre_backend.Conversion.System.Sound.{IsSound}
use voxkivre_backend.Conversion.System.Reserved.{IsReserved}
use voxkivre_backend.Conversion.System.Reached.{Reaches-IsSound, Reaches-IsReserved}
use voxkivre_backend.Conversion.System.Later.{Follows}
use voxkivre_backend.Conversion.System.Follows.{Reaches-Follows}
use voxkivre_backend.Conversion.System.Refines.{start_conversion-Reaches}
use voxkivre_backend.Conversion.System.Workers.{
  prepare_conversion-Reaches, synthesize_segment-Reaches,
}
use voxkivre_backend.Conversion.System.Assembly.{assemble_part-Reaches}
use voxkivre_backend.Conversion.Outcomes.Failing.{fail_conversion-once}
use voxkivre_backend.Conversion.Outcomes.Starting.{WasActive, IsActive, start_conversion-IsActive}
use voxkivre_backend.Conversion.Outcomes.Planning.{complete_preparation_total}

abbrev accepts : Job → Bool
accepts job = true

abbrev launching : Launching
launching = record {
  id = 31;
  now = 1000;
  entry_id = 41;
  policy = record { free_tier_units_per_month = 100; max_chars_per_conversion = 1000 };
  accepts = accepts;
}

abbrev input : StartConversionInput
input = record { owner_id = 7; document_id = 3; voice_id = none }

abbrev source : SourceText
source = record {
  document_id = 3;
  owner_id = 7;
  text_ready = true;
  char_count = 25;
  text_revision = 2;
  review_pending = false;
}

abbrev pages : List PageText
pages =
    record { page_number = 1; text = codes "Dr R&D coûte." }
    ∷ record { page_number = 2; text = codes "Il pleut. Fin" }
    ∷ []

-- What the voice says for `Dr` and for a word that no rule takes.
abbrev say : Bool → Text → Text
say true word = codes "Docteur"
say false word = word

abbrev pronounce : Pronunciation
pronounce = record {
  spoken = λ words k. say (same_text (word_at words k) (codes "Dr")) (word_at words k);
  abbreviation = λ words k. false;
}

say-fits :
    (b : Bool) (word : Text)
    → (say b word ≡ word) ⊎ (escaped_byte_length (say b word) ≤ max_spoken_bytes)
unfolding escaped_byte_length code_points
say-fits true word = inr (omega arith)
say-fits false word = inl refl

abbrev names : Names
names = record { encoded_owner = λ id. id ∷ []; conversion_uuid = λ id. id ∷ []; sha256 = λ t. t }

abbrev preparing_31 : Preparing
preparing_31 = record {
  before = some source;
  pages = pages;
  after = some source;
  engine_signature = λ voice. voice;
  pronounce = pronounce;
  names = names;
  marked_at = 2000;
  failed_at = 2001;
  completed_at = 2002;
  entry_id = 42;
  accepts = accepts;
}

abbrev synthesizing_31 : Synthesizing
synthesizing_31 = record {
  cached_marks = λ key. none;
  is_stored = λ key. false;
  synthesize = λ ssml voice.
      spoken
        (record { duration_ms = 3000; marks = record { name = codes "w0"; time_ms = 10 } ∷ [] });
  can_put = λ key. true;
  now = 3000;
  checked_at = 3001;
  failed_at = 3002;
  entry_id = 43;
  accepts = accepts;
}

abbrev assembling_31 : Assembling
assembling_31 = record {
  object = λ key. some (1 ∷ 2 ∷ []);
  joined = λ chunks. 1 ∷ 2 ∷ [];
  durations_ms = λ chunks. map (λ chunk. 3000) chunks;
  sha256_of = λ bytes. bytes;
  names = names;
  can_put = λ key. true;
  completed_at = 4000;
  ready_at = 4001;
}

abbrev empty : World
empty = empty_world offers

abbrev launched : World
launched = (start_conversion launching input (some source) empty empty).1

abbrev planned : World
planned = (prepare_conversion preparing_31 31 launched).1

abbrev said : World
said = (synthesize_segment synthesizing_31 31 0 planned).1

abbrev delivered : World
delivered = (assemble_part assembling_31 31 0 said).1

start_conversion-Reaches_example : Reaches empty launched
start_conversion-Reaches_example =
    start_conversion-Reaches launching input (some source) empty empty

prepare_conversion-Reaches_example : Reaches launched planned
prepare_conversion-Reaches_example = prepare_conversion-Reaches preparing_31 31 launched

synthesize_segment-Reaches_example : Reaches planned said
synthesize_segment-Reaches_example = synthesize_segment-Reaches synthesizing_31 31 0 planned

assemble_part-Reaches_example : Reaches said delivered
assemble_part-Reaches_example = assemble_part-Reaches assembling_31 31 0 said

delivered-Reaches : Reaches empty delivered
delivered-Reaches =
    Reaches-trans (start_conversion-Reaches launching input (some source) empty empty) (
      Reaches-trans (prepare_conversion-Reaches preparing_31 31 launched) (
        Reaches-trans (synthesize_segment-Reaches synthesizing_31 31 0 planned)
          (assemble_part-Reaches assembling_31 31 0 said)))

Reaches-IsSound_example : IsSound delivered
Reaches-IsSound_example = Reaches-IsSound offers delivered delivered-Reaches

Reaches-IsReserved_example : IsReserved delivered
Reaches-IsReserved_example = Reaches-IsReserved offers delivered delivered-Reaches

Reaches-Follows_example : Follows empty delivered
Reaches-Follows_example = Reaches-Follows delivered-Reaches

abbrev asked_for : Conversion
asked_for = record {
  id = 31;
  owner_id = 7;
  document_id = 3;
  voice_id = default_voice_id;
  text_revision = 2;
  status = queued;
  reserved_chars = 25;
  segment_count = none;
  part_count = none;
  failure_reason = none;
  created_at = 1000;
  updated_at = 1000;
  completed_at = none;
}

abbrev voice : Voice
voice = record { id = default_voice_id; tier = standard }

is_offered : find_voice default_voice_id ≡ some voice
unfolding find_voice
is_offered = refl

-- A second launch for the same target, which has read the table before the first one wrote.
abbrev launching_again : Launching
launching_again = record launching { id = 32; now = 1001; entry_id = 46 }

lost_the_race :
    start_conversion launching_again input (some source) empty launched
    ≡ (done (ok asked_for), launched)
unfolding start_conversion resume_or_launch launch reserve_and_insert new_queued_conversion insert
    find_voice find_active schedule_preparation reserve_quota reserve_in_transaction reserve_new
    book find_reservation lock_balances period_at units_of units_for_chars allocate usable_from
    record_reservation insert_reservation apply_to_sources apply_to_free apply_to_pass
    apply_to_wallet charge_pass charge_wallet
lost_the_race = refl

start_conversion-IsActive_example :
    WasActive 3 default_voice_id 2 asked_for empty launched launched
    ⊎ IsActive 3 default_voice_id 2 asked_for empty launched
start_conversion-IsActive_example =
    start_conversion-IsActive launching_again input voice source asked_for empty launched launched
      is_offered lost_the_race

abbrev refused : World
refused = (fail_conversion 31 tts_rejected 5000 44 launched).1

has_failed : fail_conversion 31 tts_rejected 5000 44 launched ≡ (done true, refused)
unfolding fail_conversion fail_and_refund mark_failed consumed_chars refund_quota refund_reservation
    record_refund mark_refunded give_sources_back split_refund start_conversion resume_or_launch
    launch reserve_and_insert new_queued_conversion insert find_voice find_active
    schedule_preparation reserve_quota reserve_in_transaction reserve_new book find_reservation
    lock_balances period_at units_of units_for_chars allocate usable_from record_reservation
    insert_reservation apply_to_sources apply_to_free apply_to_pass apply_to_wallet charge_pass
    charge_wallet
has_failed = refl

launched-IsSound : IsSound launched
launched-IsSound =
    Reaches-IsSound offers launched
      (start_conversion-Reaches launching input (some source) empty empty)

fail_conversion-once_example : fail_conversion 31 internal 6000 45 refused ≡ (done false, refused)
fail_conversion-once_example =
    fail_conversion-once 31 tts_rejected 5000 44 launched (launched-IsSound.one_conversion 31)
      refused has_failed internal 6000 45

abbrev marked : World
marked = (mark_preparing 31 2000 launched).1

marked-IsSound : IsSound marked
marked-IsSound = Reaches-IsSound offers marked (
    Reaches-trans (start_conversion-Reaches launching input (some source) empty empty)
      (Reaches-step (prepares 31 2000)))

abbrev in_preparation : Conversion
in_preparation = record asked_for { status = preparing; updated_at = 2000 }

is_marked : find (conversion_key 31) marked.conversions ≡ some in_preparation
unfolding mark_preparing start_conversion resume_or_launch launch reserve_and_insert
    new_queued_conversion insert find_voice find_active schedule_preparation reserve_quota
    reserve_in_transaction reserve_new book find_reservation lock_balances period_at units_of
    units_for_chars allocate usable_from record_reservation insert_reservation apply_to_sources
    apply_to_free apply_to_pass apply_to_wallet charge_pass charge_wallet
is_marked = refl

abbrev spoken_segments : List SsmlSegment
spoken_segments = build_ssml_segments pronounce pages

abbrev sizes : List ℕ
sizes = map (λ (s : SsmlSegment). s.char_count) spoken_segments

complete_preparation_total_example :
    (w : World) × (complete_preparation 31
        (prepared_from names (codes "fr") (plan_parts sizes) 0 spoken_segments)
        (plan_parts sizes)
        2002
        marked
      ≡ done (true, w))
complete_preparation_total_example =
    complete_preparation_total pronounce pages names (codes "fr") 31 2002 marked in_preparation
      marked-IsSound is_marked refl

build_ssml_segments-fit_example :
    All (λ s. byte_length s.ssml ≤ max_ssml_bytes) (build_ssml_segments pronounce pages)
build_ssml_segments-fit_example = build_ssml_segments-fit pronounce pages (λ k.
    let word = word_at (texts_of (words_of pages)) k in say-fits (same_text word (codes "Dr")) word)

build_ssml_segments-words_example :
    (words_of_all (build_ssml_segments pronounce pages) ≡ words_of pages)
    × AreNumbered 0 (build_ssml_segments pronounce pages)
build_ssml_segments-words_example = build_ssml_segments-words pronounce pages

plan_parts-AreConsecutive_example : AreConsecutive 0 0 4 (plan_parts (900 ∷ 2800 ∷ 15000 ∷ 3 ∷ []))
plan_parts-AreConsecutive_example = plan_parts-AreConsecutive (900 ∷ 2800 ∷ 15000 ∷ 3 ∷ [])

abbrev two_segments : List TimelineSegment
two_segments =
    record {
      first_word_index = 0;
      words = record { t = codes "Il"; p = 1 } ∷ record { t = codes "pleut."; p = 1 } ∷ [];
      timepoints = some 10 ∷ none ∷ [];
      duration_ms = 900;
    }
    ∷ record {
      first_word_index = 2;
      words = record { t = codes "Fin"; p = 2 } ∷ [];
      timepoints = [];
      duration_ms = 400;
    }
    ∷ []

build_part_timeline-FollowEachOther_example :
    FollowEachOther 0 1300 (build_part_timeline two_segments)
build_part_timeline-FollowEachOther_example = build_part_timeline-FollowEachOther two_segments

build_part_timeline-words_example :
    map word_of (build_part_timeline two_segments) ≡ Ordered.words_of_all two_segments
build_part_timeline-words_example = build_part_timeline-words two_segments

read-escape_cue_text_example :
    (read_from false 0 (escape_cue_text (codes "a<b&amp;>")) ≡ codes "a<b&amp;>")
    × (exists (λ c. c == b'>') (escape_cue_text (codes "a<b&amp;>")) ≡ false)
read-escape_cue_text_example = read-escape_cue_text (codes "a<b&amp;>")
