-- ===== src/Billing/System/Periods.antt =====
-- The periods of the passes that a user has bought do not overlap.
use voxkivre_backend.Prelude.{
  ℕ, ◌≤◌, ◌<◌, ◌≡◌, refl, inl, inr, ltb, ◌==◌, ◌&&◌, Bool-cases, Bool, true, false, List, [], ◌∷◌,
  Option, none, some, exists, update, AtMostOne, arith, subst,
}
use voxkivre_backend.Billing.Offers.{is_pass_active_at}
use voxkivre_backend.Billing.Store.{Pass, pass_key}
use voxkivre_backend.Billing.UnitsLedger.{Sign, shift}
use voxkivre_backend.Billing.UnitsLedger.Charges.{charged_passes}
use voxkivre_backend.Billing.PurchaseLedger.{latest_end, max_of}

abbrev pub NotAfter : Option ℕ → ℕ → Type 0
NotAfter none start = Unit
NotAfter (some end) start = end ≤ start

-- The newest first: each pass lasts, and begins when those bought before by its user are over.
abbrev pub IsChained : List Pass → Type 0
IsChained [] = Unit
IsChained (p ∷ ps) =
    (p.starts_at < p.ends_at) × NotAfter (latest_end p.user_id ps) p.starts_at × IsChained ps

abbrev pub runs_at : (user at : ℕ) → Pass → Bool
runs_at user at p = p.user_id == user && is_pass_active_at p.starts_at p.ends_at at

latest_end-update :
    (sign : Sign) (n id user : ℕ) (ps : List Pass)
    → latest_end user
        (update (pass_key id) (λ p. record p { used_units = shift sign n p.used_units }) ps)
      ≡ latest_end user ps
latest_end-update sign n id user [] = refl
latest_end-update sign n id user (p ∷ ps) = ground (arith, latest_end-update sign n id user ps)

IsChained-update :
    (sign : Sign) (n id : ℕ) (ps : List Pass)
    → IsChained ps
    → IsChained (update (pass_key id) (λ p. record p { used_units = shift sign n p.used_units }) ps)
IsChained-update sign n id [] c = tt
IsChained-update sign n id (p ∷ ps) c =
    ground (arith, latest_end-update sign n id p.user_id ps, IsChained-update sign n id ps c.2)

pub IsChained-charged :
    (pass : Option ℕ) (sign : Sign) (n : ℕ) (ps : List Pass)
    → IsChained ps
    → IsChained (charged_passes pass sign n ps)
IsChained-charged none sign n ps c = c
IsChained-charged (some id) sign n ps c = elim (Bool-cases (ltb 0 n)) [
  | inl e ↦ rw e (IsChained-update sign n id ps c)
  | inr e ↦ rw e c
]

NotAfter-max_of : (x at : ℕ) (o : Option ℕ) → NotAfter (max_of x o) at → (x ≤ at) × NotAfter o at
NotAfter-max_of x at none h = (h, tt)
NotAfter-max_of x at (some y) h = (omega arith, omega arith)

NotAfter-mono : (o : Option ℕ) (s t : ℕ) → NotAfter o s → s ≤ t → NotAfter o t
NotAfter-mono none s t h k = tt
NotAfter-mono (some y) s t h k = omega arith

-- A pass that runs ends no later than the latest end.
runs_before_end :
    (user at : ℕ) (ps : List Pass)
    → NotAfter (latest_end user ps) at
    → exists (runs_at user at) ps ≡ false
runs_before_end user at [] h = refl
runs_before_end user at (p ∷ ps) h = elim (Bool-cases (p.user_id == user)) [
  | inr other ↦ rw other (
      runs_before_end user at ps (
        let e : latest_end user (p ∷ ps) ≡ latest_end user ps = ground arith in
        subst (λ o. NotAfter o at) e h))
  | inl own ↦
      let e : latest_end user (p ∷ ps) ≡ max_of p.ends_at (latest_end user ps) = ground arith in
      let (ended, earlier) =
        NotAfter-max_of p.ends_at at (latest_end user ps) (subst (λ o. NotAfter o at) e h) in
      ground (arith, runs_before_end user at ps earlier)
]

-- At any time one pass of a user runs at most.
pub IsChained-AtMostOne :
    (user at : ℕ) (ps : List Pass) → IsChained ps → AtMostOne (runs_at user at) ps
IsChained-AtMostOne user at [] c = tt
IsChained-AtMostOne user at (p ∷ ps) c = (first, IsChained-AtMostOne user at ps c.2)
  where
    first : runs_at user at p ≡ true → exists (runs_at user at) ps ≡ false
    first e =
        let own : p.user_id ≡ user = ground arith in
        let begun : p.starts_at ≤ at = ground arith in
        runs_before_end user at ps (
          NotAfter-mono (latest_end user ps) p.starts_at at
            (subst (λ u. NotAfter (latest_end u ps) p.starts_at) own c.1) begun)
