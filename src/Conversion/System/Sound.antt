-- ===== src/Conversion/System/Sound.antt =====
-- What the tables of conversion hold, whatever has happened.
use voxkivre_backend.Prelude.{
  ℕ, ◌==◌, ◌≡◌, sym, ap, ◌∙◌, subst, Bool, true, false, List, update, exists, All, AtMostOne,
  AtMostOne-update, AtMostOne-shrink, exists-update, not_exists-update, All-update, All-map,
}
use voxkivre_backend.Billing.Store.{Db}
use voxkivre_backend.Shared.Text.{Text}
use voxkivre_backend.Conversion.Status.{
  ConversionStatus, queued, preparing, synthesizing, synthesized, ready, failed, Conversion,
}
use voxkivre_backend.Conversion.Store.{
  SegmentRow, PartRow, World, Job, conversion_key, segment_of, part_of, is_active_for, may_prepare,
  is_pending, is_unassembled,
}

-- The synthesis is over.
abbrev pub is_spoken : ConversionStatus → Bool
is_spoken synthesized = true
is_spoken ready = true
is_spoken queued = false
is_spoken preparing = false
is_spoken synthesizing = false
is_spoken failed = false

-- What the status of a conversion says of its segments and parts.
pub record IsWhole (segments : List SegmentRow) (parts : List PartRow) (c : Conversion)
    : Type 0 where
  pub no_segments : may_prepare c.status ≡ true → exists (segment_of c.id) segments ≡ false
  pub no_parts : may_prepare c.status ≡ true → exists (part_of c.id) parts ≡ false
  pub spoken : is_spoken c.status ≡ true → exists (is_pending c.id) segments ≡ false
  pub delivered : c.status ≡ ready → exists (is_unassembled c.id) parts ≡ false

-- A segment or a part has its conversion, as the foreign keys say.
abbrev pub HasConversion : List Conversion → ℕ → Type 0
HasConversion conversions id = exists (conversion_key id) conversions ≡ true

pub record IsSound (w : World) : Type 0 where
  pub one_conversion : (id : ℕ) → AtMostOne (conversion_key id) w.conversions
  pub one_active :
      (document : ℕ) (voice : Text) (revision : ℕ)
      → AtMostOne (is_active_for document voice revision) w.conversions
  pub whole : All (IsWhole w.segments w.parts) w.conversions
  pub owned_segments :
      All (λ (s : SegmentRow). HasConversion w.conversions s.conversion_id) w.segments
  pub owned_parts : All (λ (p : PartRow). HasConversion w.conversions p.conversion_id) w.parts

-- An update of conversions that keeps identifiers and makes no conversion active.
pub conversions-IsSound :
    (w : World) (q : Conversion → Bool) (f : Conversion → Conversion)
    → ((id : ℕ) (c : Conversion) → conversion_key id (f c) ≡ conversion_key id c)
    → ((document : ℕ) (voice : Text) (revision : ℕ) (c : Conversion)
        → q c ≡ true
        → is_active_for document voice revision (f c) ≡ true
        → is_active_for document voice revision c ≡ true)
    → ((c : Conversion)
        → q c ≡ true
        → IsWhole w.segments w.parts c
        → IsWhole w.segments w.parts (f c))
    → IsSound w
    → IsSound (record w { conversions = update q f w.conversions })
conversions-IsSound w q f same shrinks keeps v = record {
  one_conversion =
      λ id. AtMostOne-update (conversion_key id) q f w.conversions (same id) (v.one_conversion id);
  one_active = λ d t r.
      AtMostOne-shrink (is_active_for d t r) q f w.conversions (shrinks d t r) (v.one_active d t r);
  whole =
      All-update (IsWhole w.segments w.parts) (IsWhole w.segments w.parts) q f w.conversions keeps
        (λ c e k. k) v.whole;
  owned_segments =
      All-map _ _ w.segments
        (λ s h.
          exists-update q (conversion_key s.conversion_id) f w.conversions (same s.conversion_id)
          ∙ h)
        v.owned_segments;
  owned_parts =
      All-map _ _ w.parts
        (λ p h.
          exists-update q (conversion_key p.conversion_id) f w.conversions (same p.conversion_id)
          ∙ h)
        v.owned_parts;
}

-- An update of segments that takes the audio of none away.
pub segments-IsSound :
    (w : World) (q : SegmentRow → Bool) (f : SegmentRow → SegmentRow)
    → ((s : SegmentRow) → (f s).conversion_id ≡ s.conversion_id)
    → ((id : ℕ) (s : SegmentRow) → q s ≡ true → is_pending id (f s) ≡ true → is_pending id s ≡ true)
    → IsSound w
    → IsSound (record w { segments = update q f w.segments })
segments-IsSound w q f same keeps v = record {
  one_conversion = v.one_conversion;
  one_active = v.one_active;
  whole =
      All-map _ _ w.conversions
        (λ c h. record {
          no_segments = λ e.
              exists-update q (segment_of c.id) f w.segments (λ s. ap (λ i. i == c.id) (same s))
              ∙ h.no_segments e;
          no_parts = h.no_parts;
          spoken =
              λ e. not_exists-update (is_pending c.id) q f w.segments (keeps c.id) (h.spoken e);
          delivered = h.delivered;
        })
        v.whole;
  owned_segments =
      All-update _ _ q f w.segments (λ s e h. subst (HasConversion w.conversions) (sym (same s)) h)
        (λ s e h. h) v.owned_segments;
  owned_parts = v.owned_parts;
}

pub parts-IsSound :
    (w : World) (q : PartRow → Bool) (f : PartRow → PartRow)
    → ((p : PartRow) → (f p).conversion_id ≡ p.conversion_id)
    → ((id : ℕ) (p : PartRow)
        → q p ≡ true
        → is_unassembled id (f p) ≡ true
        → is_unassembled id p ≡ true)
    → IsSound w
    → IsSound (record w { parts = update q f w.parts })
parts-IsSound w q f same keeps v = record {
  one_conversion = v.one_conversion;
  one_active = v.one_active;
  whole =
      All-map _ _ w.conversions
        (λ c h. record {
          no_segments = h.no_segments;
          no_parts = λ e.
              exists-update q (part_of c.id) f w.parts (λ p. ap (λ i. i == c.id) (same p))
              ∙ h.no_parts e;
          spoken = h.spoken;
          delivered =
              λ e. not_exists-update (is_unassembled c.id) q f w.parts (keeps c.id) (h.delivered e);
        })
        v.whole;
  owned_segments = v.owned_segments;
  owned_parts =
      All-update _ _ q f w.parts (λ p e h. subst (HasConversion w.conversions) (sym (same p)) h)
        (λ p e h. h) v.owned_parts;
}

-- Billing and the queue are other tables.
pub others-IsSound :
    (w : World) (billing : Db) (jobs : List Job)
    → IsSound w
    → IsSound (record w { billing = billing; jobs = jobs })
others-IsSound w billing jobs v = record {
  one_conversion = v.one_conversion;
  one_active = v.one_active;
  whole = v.whole;
  owned_segments = v.owned_segments;
  owned_parts = v.owned_parts;
}
