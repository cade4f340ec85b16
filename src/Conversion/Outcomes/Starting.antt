-- ===== src/Conversion/Outcomes/Starting.antt =====
-- What a launch leaves when it answers (start-conversion.use-case.ts).
use voxkivre_backend.Prelude.{
  ℕ, ◌≡◌, refl, sym, ap, ◌∙◌, ◌⊎◌, subst, Bool, true, false, Bool-cases, inl, inr, [], ◌∷◌, Option,
  none, some, find, Outcome, done, thrown, committed, >>=-eq-done, Result, ok, err, arith,
}
use voxkivre_backend.Shared.Text.{Text, same_text}
use voxkivre_backend.Billing.UnitsLedger.{UnitsReservation}
use voxkivre_backend.Billing.ReserveQuota.{ReserveError, reserve_quota}
use voxkivre_backend.Conversion.Status.{
  queued, failed, same_status, Voice, default_voice_id, find_voice, Conversion,
  new_queued_conversion,
}
use voxkivre_backend.Conversion.Store.{World, Job, prepare_conversion, is_active_for, insert}
use voxkivre_backend.Conversion.Store.Reads.{or_else, find_active}
use voxkivre_backend.Conversion.Jobs.{enqueue_if, as_scheduled, schedule_preparation}
use voxkivre_backend.Conversion.StartConversion.{
  Launching, StartConversionInput, SourceText, start_conversion, launch, resume_or_launch,
  concluded, winner_or, is_conflict, reserve_and_insert, insert_if_reserved, conversion_for,
  for_source, for_voice, quota_input,
}
use voxkivre_backend.Conversion.System.Planned.{insert-done}

same_text_refl : (t : Text) → same_text t t ≡ true
same_text_refl [] = refl
same_text_refl (c ∷ cs) = ground (arith, same_text_refl cs)

-- The queue is another table.
scheduled-same :
    (accepts : Job → Bool) (id : ℕ) (w : World)
    → (schedule_preparation accepts id w).1.conversions ≡ w.conversions
unfolding schedule_preparation
scheduled-same accepts id w = go (accepts (prepare_conversion id))
  where
    go :
        (b : Bool)
        → (as_scheduled (enqueue_if b (prepare_conversion id) w)).1.conversions ≡ w.conversions
    go true = refl
    go false = refl

-- The conversion that is active for its target.
abbrev active : Conversion → World → Option Conversion
active c w = find (is_active_for c.document_id c.voice_id c.text_revision) w.conversions

is_active_for_itself :
    (c : Conversion)
    → c.status ≡ queued
    → is_active_for c.document_id c.voice_id c.text_revision c ≡ true
is_active_for_itself c q =
    ground (arith, same_text_refl c.voice_id, ap (λ s. same_status s failed) q)

insert_if_reserved-ok :
    (c : Conversion) (reserved : Result UnitsReservation ReserveError) (u : Unit {0}) (w w' : World)
    → c.status ≡ queued
    → insert_if_reserved c reserved w ≡ done (ok u, w')
    → active c w' ≡ some c
insert_if_reserved-ok c (err e) u w w' q h = absurd (ground arith)
insert_if_reserved-ok c (ok r) u w w' q h =
    let (rows, e, k) = >>=-eq-done (insert c w.conversions) _ h in
    let ins = insert-done c w.conversions rows e in
    let same : w'.conversions ≡ c ∷ w.conversions = ground (arith, ins.result) in
    let itself = is_active_for_itself c q in
    ap (find (is_active_for c.document_id c.voice_id c.text_revision)) same ∙ ground arith

reserve_and_insert-ok :
    (launching : Launching) (voice : Voice) (c : Conversion) (u : Unit {0}) (w w' : World)
    → c.status ≡ queued
    → reserve_and_insert launching voice.tier c w ≡ done (ok u, w')
    → active c w' ≡ some c
unfolding reserve_and_insert
reserve_and_insert-ok launching voice c u w w' q h =
    let ((reserved, db), e, k) =
      >>=-eq-done
        (reserve_quota launching.policy (quota_input c voice.tier) launching.now launching.entry_id
          w.billing)
        _ h in
    insert_if_reserved-ok c reserved u (record w { billing = db }) w' q k

winner-active :
    (c : Conversion) (w w' : World) (r : Conversion) (o : Option Conversion)
    → active c w ≡ o
    → winner_or o w ≡ (done (ok r), w')
    → active c w' ≡ some r
winner-active c w w' r none e h = absurd (ground arith)
winner-active c w w' r (some x) e h =
    let is_w : w ≡ w' = ground arith in
    let is_x : x ≡ r = ground arith in subst (λ y. active c y ≡ some r) is_w (e ∙ ap some is_x)

launch-active :
    (launching : Launching) (voice : Voice) (c r : Conversion) (w w' : World)
    → c.status ≡ queued
    → launch launching voice.tier c w ≡ (done (ok r), w')
    → active c w' ≡ some r
unfolding launch find_active
launch-active launching voice c r w w' q h = go (reserve_and_insert launching voice.tier c w) refl h
  where
    go :
        (o : Outcome (Result (Unit {0}) ReserveError × World))
        → reserve_and_insert launching voice.tier c w ≡ o
        → concluded launching c (committed w o) ≡ (done (ok r), w')
        → active c w' ≡ some r
    go (thrown x) e k = elim (Bool-cases (is_conflict x)) [
      | inl y ↦ winner-active c w w' r (active c w) refl (ground arith)
      | inr y ↦ absurd (ground arith)
    ]
    go (done (err x, w₁)) e k = absurd (ground arith)
    go (done (ok u, w₁)) e k =
        let is_c : c ≡ r = ground arith in
        let is_w : (schedule_preparation launching.accepts c.id w₁).1 ≡ w' = ground arith in
        let kept : w'.conversions ≡ w₁.conversions =
          ap (λ (x : World). x.conversions) (sym is_w) ∙ scheduled-same launching.accepts c.id w₁ in
        ap (find (is_active_for c.document_id c.voice_id c.text_revision)) kept
        ∙ reserve_and_insert-ok launching voice c u w w₁ q e
        ∙ ap some is_c

resume-kept :
    (launching : Launching) (input : StartConversionInput) (voice : Voice) (s : SourceText)
    (x r : Conversion) (w w' : World)
    → resume_or_launch launching input voice s (some x) w ≡ (done (ok r), w')
    → (x ≡ r) × (w'.conversions ≡ w.conversions)
unfolding resume_or_launch
resume-kept launching input voice s x r w w' h = elim (Bool-cases (same_status x.status queued)) [
  | inl y ↦
      let is_w : (schedule_preparation launching.accepts x.id w).1 ≡ w' = ground arith in
      (
        ground arith,
        ap (λ (z : World). z.conversions) (sym is_w) ∙ scheduled-same launching.accepts x.id w,
      )
  | inr y ↦
      let is_w : w ≡ w' = ground arith in
      (ground arith, ap (λ (z : World). z.conversions) (sym is_w))
]

-- The answer is the conversion that was active when the table was read, or else one that is active
-- now.
pub record WasActive (document : ℕ) (voice : Text) (revision : ℕ) (r : Conversion)
    (seen w w' : World) : Type 0 where
  pub found : find_active document voice revision seen ≡ some r
  pub kept : w'.conversions ≡ w.conversions

pub record IsActive (document : ℕ) (voice : Text) (revision : ℕ) (r : Conversion) (seen w' : World)
    : Type 0 where
  pub none_seen : find_active document voice revision seen ≡ none
  pub found : find_active document voice revision w' ≡ some r

resume_or_launch-IsActive :
    (launching : Launching) (input : StartConversionInput) (voice : Voice) (s : SourceText)
    (o : Option Conversion) (r : Conversion) (seen w w' : World)
    → find_active s.document_id voice.id s.text_revision seen ≡ o
    → resume_or_launch launching input voice s o w ≡ (done (ok r), w')
    → WasActive s.document_id voice.id s.text_revision r seen w w'
      ⊎ IsActive s.document_id voice.id s.text_revision r seen w'
unfolding resume_or_launch new_queued_conversion find_active
resume_or_launch-IsActive launching input voice s none r seen w w' e h = inr (record {
  none_seen = e;
  found = launch-active launching voice (conversion_for launching input voice s) r w w' refl h;
})
resume_or_launch-IsActive launching input voice s (some x) r seen w w' e h =
    let (is_r, same) = resume-kept launching input voice s x r w w' h in
    inl (record { found = e ∙ ap some is_r; kept = same })

for_source-IsActive :
    (launching : Launching) (input : StartConversionInput) (voice : Voice) (s : SourceText)
    (r : Conversion) (seen w w' : World)
    → for_source launching input voice (some s) seen w ≡ (done (ok r), w')
    → WasActive s.document_id voice.id s.text_revision r seen w w'
      ⊎ IsActive s.document_id voice.id s.text_revision r seen w'
for_source-IsActive launching input voice s r seen w w' h =
    resume_or_launch-IsActive launching input voice s
      (find_active s.document_id voice.id s.text_revision seen) r seen w w' refl (ground arith)

-- When a launch with a voice that is offered answers a conversion, it is the one that was found
-- active for the document, the voice and the revision of the text, and the table of conversions is
-- left as it was; or none was found, and the answer is in the table at the end as the active one,
-- inserted by this launch or by another since the table was read.
pub start_conversion-IsActive :
    (launching : Launching) (input : StartConversionInput) (voice : Voice) (s : SourceText)
    (r : Conversion) (seen w w' : World)
    → find_voice (or_else input.voice_id default_voice_id) ≡ some voice
    → start_conversion launching input (some s) seen w ≡ (done (ok r), w')
    → WasActive s.document_id voice.id s.text_revision r seen w w'
      ⊎ IsActive s.document_id voice.id s.text_revision r seen w'
unfolding start_conversion
start_conversion-IsActive launching input voice s r seen w w' known h =
    let k : for_voice launching input (or_else input.voice_id default_voice_id) (some voice)
          (some s) seen w
        ≡ (done (ok r), w') =
      ap
        (λ v. for_voice launching input (or_else input.voice_id default_voice_id) v (some s) seen w)
        (sym known)
      ∙ h in
    for_source-IsActive launching input voice s r seen w w' k
