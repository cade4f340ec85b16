-- ===== src/Billing/Allocation/Greedy.antt =====
-- How `allocate` and `splitRefund` share a number of units between the sources.
use voxkivre_backend.Prelude.{ℕ, ◌+◌, ◌-◌, ◌≤◌, ◌<◌, ◌≡◌, ◌⊎◌, inl, inr, min, done, ok, err, arith}
use native.Mathlib.Decide.{dec_le}
use voxkivre_backend.Billing.Units.{max_safe_integer, VoiceTier, standard, natural, units_of}
use voxkivre_backend.Billing.Allocation.{UnitsBySource, usable_from, allocate, split_refund}

abbrev pub total : UnitsBySource → ℕ
total u = u.free + u.pass + u.credits

-- The free units are for standard voices.
abbrev pub free_for : VoiceTier → ℕ → ℕ
free_for standard n = n
free_for natural n = 0

-- What the sources hold for a tier.
abbrev pub usable : VoiceTier → UnitsBySource → UnitsBySource
usable tier u = record u { free = free_for tier u.free }

-- The share of n units out of u in which a source gives only when those before it are empty.
abbrev pub greedy : ℕ → UnitsBySource → UnitsBySource
greedy n u = record {
  free = min n u.free;
  pass = min (n - u.free) u.pass;
  credits = min (n - u.free - u.pass) u.credits;
}

abbrev pub minus : UnitsBySource → UnitsBySource → UnitsBySource
minus u v = record {
  free = u.free - v.free;
  pass = u.pass - v.pass;
  credits = u.credits - v.credits;
}

-- t is n units taken out of u, in the order free, pass, credits.
pub record IsDebit (n : ℕ) (u t : UnitsBySource) : Type 0 where
  pub sum : total t ≡ n
  pub free_le : t.free ≤ u.free
  pub pass_le : t.pass ≤ u.pass
  pub credits_le : t.credits ≤ u.credits
  pub pass_last : (t.pass ≡ 0) ⊎ (t.free ≡ u.free)
  pub credits_last : (t.credits ≡ 0) ⊎ ((t.free ≡ u.free) × (t.pass ≡ u.pass))

pub greedy-IsDebit : (n : ℕ) (u : UnitsBySource) → n ≤ total u → IsDebit n u (greedy n u)
greedy-IsDebit n u h = ground arith

-- There is one such share.
pub IsDebit-unique : (n : ℕ) (u t : UnitsBySource) → IsDebit n u t → t ≡ greedy n u
IsDebit-unique n u t d = ground arith

pub allocate-done :
    (n : ℕ) (tier : VoiceTier) (u : UnitsBySource)
    → n ≤ max_safe_integer
    → n ≤ total (usable tier u)
    → allocate n tier u ≡ done (ok (greedy n (usable tier u)))
unfolding allocate usable_from units_of
allocate-done n standard u h k = ground arith
allocate-done n natural u h k = ground arith

pub allocate-short :
    (n : ℕ) (tier : VoiceTier) (u : UnitsBySource)
    → n ≤ max_safe_integer
    → total (usable tier u) < n
    → allocate n tier u
      ≡ done (
          err
            (record { requested = n; tier = tier; available = u; usable = total (usable tier u) }))
unfolding allocate usable_from units_of
allocate-short n standard u h k = ground arith
allocate-short n natural u h k = ground arith

-- The share of a refund of n units out of u: the sources in the opposite order.
abbrev pub give_back : UnitsBySource → ℕ → UnitsBySource
give_back u n = record {
  free = min (n - u.credits - u.pass) u.free;
  pass = min (n - u.credits) u.pass;
  credits = min n u.credits;
}

pub split_refund-done :
    (reserved : UnitsBySource) (n : ℕ)
    → total reserved ≤ max_safe_integer
    → split_refund reserved n ≡ done (give_back reserved n)
unfolding split_refund units_of
split_refund-done reserved n h = ground arith

-- What a refund of n units leaves taken is what a debit of the rest would have taken: the part
-- that was consumed is charged to the first sources.
pub split_refund-minus :
    (reserved : UnitsBySource) (n : ℕ)
    → total reserved ≤ max_safe_integer
    → n ≤ total reserved
    → (r : UnitsBySource) × (split_refund reserved n ≡ done r)
      × (total r ≡ n)
      × (minus reserved r ≡ greedy (total reserved - n) reserved)
split_refund-minus reserved n h k = (_, split_refund-done reserved n h, ground arith, ground arith)

-- For a safe number of units `allocate` does not throw. If the sources that the tier may use hold
-- enough, it takes exactly the units asked for, in the order free, pass, credits, and no source
-- gives more than it has; otherwise it reports the shortfall with what could have been used.
pub allocate_lem :
    (n : ℕ) (tier : VoiceTier) (u : UnitsBySource)
    → n ≤ max_safe_integer
    → ((n ≤ total (usable tier u))
        × ((t : UnitsBySource) × (allocate n tier u ≡ done (ok t)) × IsDebit n (usable tier u) t))
      ⊎ ((total (usable tier u) < n)
          × (allocate n tier u
              ≡ done (
                  err (record {
                    requested = n;
                    tier = tier;
                    available = u;
                    usable = total (usable tier u);
                  }))))
allocate_lem n tier u h = elim (dec_le n (total (usable tier u))) [
  | yes k ↦ inl (k, (_, allocate-done n tier u h k, greedy-IsDebit n (usable tier u) k))
  | no k ↦ inr (omega arith, allocate-short n tier u h (omega arith))
]

pub allocate-IsDebit :
    (n : ℕ) (tier : VoiceTier) (u t : UnitsBySource)
    → n ≤ max_safe_integer
    → allocate n tier u ≡ done (ok t)
    → IsDebit n (usable tier u) t
allocate-IsDebit n tier u t h e = elim (allocate_lem n tier u h) [
  | inl (k, (t', e', d)) ↦ let same : t' ≡ t = cc in rw same at d
  | inr (k, e') ↦ absurd (cc)
]
