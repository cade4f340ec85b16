-- ===== src/Conversion/System/Later.antt =====
-- What may become of the rows of conversion from one time to another.
use voxkivre_backend.Prelude.{
  ℕ, ◌&&◌, ◌||◌, ◌≡◌, refl, ap, ◌∙◌, not, Bool, true, update, arith, Followed, Followed-refl,
  Followed-trans, Followed-update,
}
use voxkivre_backend.Conversion.Status.{
  ConversionStatus, queued, preparing, synthesizing, synthesized, ready, failed, same_status,
  Conversion,
}
use voxkivre_backend.Conversion.Store.{
  World, SegmentRow, PartRow, is_set, conversion_key, segment_key, part_key,
}

-- queued → preparing → synthesizing → synthesized → ready, and → failed from the first three: what
-- a conversion of the first status may have become later, itself included.
abbrev pub may_become : ConversionStatus → ConversionStatus → Bool
may_become queued t = true
may_become preparing t = not (same_status t queued)
may_become synthesizing t = not (same_status t queued) && not (same_status t preparing)
may_become synthesized t = same_status t synthesized || same_status t ready
may_become ready t = same_status t ready
may_become failed t = same_status t failed

may_become_refl : (s : ConversionStatus) → may_become s s ≡ true
may_become_refl queued = refl
may_become_refl preparing = refl
may_become_refl synthesizing = refl
may_become_refl synthesized = refl
may_become_refl ready = refl
may_become_refl failed = refl

may_become_trans :
    (s t u : ConversionStatus)
    → may_become s t ≡ true
    → may_become t u ≡ true
    → may_become s u ≡ true
may_become_trans s t u h k = ground arith

-- One conversion at two times: it stays what it is a conversion of, and its status moves forward.
pub record IsLater (c c' : Conversion) : Type 0 where
  pub owner : c'.owner_id ≡ c.owner_id
  pub document : c'.document_id ≡ c.document_id
  pub voice : c'.voice_id ≡ c.voice_id
  pub revision : c'.text_revision ≡ c.text_revision
  pub chars : c'.reserved_chars ≡ c.reserved_chars
  pub status : may_become c.status c'.status ≡ true

pub IsLater-refl : (c : Conversion) → IsLater c c
IsLater-refl c = record {
  owner = refl;
  document = refl;
  voice = refl;
  revision = refl;
  chars = refl;
  status = may_become_refl c.status;
}

IsLater-trans : (a b c : Conversion) → IsLater a b → IsLater b c → IsLater a c
IsLater-trans a b c h k = record {
  owner = k.owner ∙ h.owner;
  document = k.document ∙ h.document;
  voice = k.voice ∙ h.voice;
  revision = k.revision ∙ h.revision;
  chars = k.chars ∙ h.chars;
  status = may_become_trans a.status b.status c.status h.status k.status;
}

-- A segment keeps its text, and the whole row once it has its audio.
pub record IsLaterSegment (s s' : SegmentRow) : Type 0 where
  pub ssml : s'.ssml ≡ s.ssml
  pub words : s'.words ≡ s.words
  pub final : is_set s.audio_key ≡ true → s' ≡ s

pub IsLaterSegment-refl : (s : SegmentRow) → IsLaterSegment s s
IsLaterSegment-refl s = record { ssml = refl; words = refl; final = λ e. refl }

IsLaterSegment-trans :
    (a b c : SegmentRow) → IsLaterSegment a b → IsLaterSegment b c → IsLaterSegment a c
IsLaterSegment-trans a b c h k = record {
  ssml = k.ssml ∙ h.ssml;
  words = k.words ∙ h.words;
  final = λ e. k.final (ap (λ (s : SegmentRow). is_set s.audio_key) (h.final e) ∙ e) ∙ h.final e;
}

-- A part keeps its range of segments, and the whole row once it is assembled.
pub record IsLaterPart (p p' : PartRow) : Type 0 where
  pub first_segment : p'.first_segment ≡ p.first_segment
  pub last_segment : p'.last_segment ≡ p.last_segment
  pub final : is_set p.assembled_at ≡ true → p' ≡ p

pub IsLaterPart-refl : (p : PartRow) → IsLaterPart p p
IsLaterPart-refl p = record { first_segment = refl; last_segment = refl; final = λ e. refl }

IsLaterPart-trans : (a b c : PartRow) → IsLaterPart a b → IsLaterPart b c → IsLaterPart a c
IsLaterPart-trans a b c h k = record {
  first_segment = k.first_segment ∙ h.first_segment;
  last_segment = k.last_segment ∙ h.last_segment;
  final = λ e. k.final (ap (λ (p : PartRow). is_set p.assembled_at) (h.final e) ∙ e) ∙ h.final e;
}

abbrev pub row_key {ℓ} : {A : Type ℓ} → (ℕ → ℕ → A → Bool) → ℕ × ℕ → A → Bool
row_key key (id, index) = key id index

-- The tables at two times: no row is lost, and each is a later state of itself.
pub record Follows (w w' : World) : Type 0 where
  pub conversions : Followed IsLater conversion_key w.conversions w'.conversions
  pub segments : Followed IsLaterSegment (row_key segment_key) w.segments w'.segments
  pub parts : Followed IsLaterPart (row_key part_key) w.parts w'.parts

pub Follows-refl : (w : World) → Follows w w
Follows-refl w = record {
  conversions = Followed-refl IsLater conversion_key IsLater-refl w.conversions;
  segments = Followed-refl IsLaterSegment (row_key segment_key) IsLaterSegment-refl w.segments;
  parts = Followed-refl IsLaterPart (row_key part_key) IsLaterPart-refl w.parts;
}

pub Follows-trans : (w w' w'' : World) → Follows w w' → Follows w' w'' → Follows w w''
Follows-trans w w' w'' h k = record {
  conversions =
      Followed-trans IsLater conversion_key IsLater-trans w.conversions w'.conversions
        w''.conversions h.conversions k.conversions;
  segments =
      Followed-trans IsLaterSegment (row_key segment_key) IsLaterSegment-trans w.segments
        w'.segments w''.segments h.segments k.segments;
  parts =
      Followed-trans IsLaterPart (row_key part_key) IsLaterPart-trans w.parts w'.parts w''.parts
        h.parts k.parts;
}

-- An update of conversions that moves the status forward.
pub moved-Follows :
    (w : World) (q : Conversion → Bool) (f : Conversion → Conversion)
    → ((i : ℕ) (c : Conversion) → conversion_key i (f c) ≡ conversion_key i c)
    → ((c : Conversion) → q c ≡ true → IsLater c (f c))
    → Follows w (record w { conversions = update q f w.conversions })
moved-Follows w q f same h = record {
  conversions = Followed-update IsLater conversion_key IsLater-refl q f same h w.conversions;
  segments = Followed-refl IsLaterSegment (row_key segment_key) IsLaterSegment-refl w.segments;
  parts = Followed-refl IsLaterPart (row_key part_key) IsLaterPart-refl w.parts;
}
