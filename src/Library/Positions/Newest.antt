-- ===== src/Library/Positions/Newest.antt =====
-- Two positions of one conversion that are sent in either order.
use voxkivre_backend.Prelude.{
  ℕ, ◌≡◌, ◌<◌, refl, sym, ap, ◌∙◌, ◌==◌, ltb, ◌&&◌, Bool, false, Bool-cases, inl, inr, true, false,
  List, [], ◌∷◌, Option, none, some, update, exists, arith,
}
use voxkivre_backend.Library.Positions.{
  ReadingPosition, position_key, is_older, overwritten, upsert, saved, save_if_newer,
}

saved-rows :
    (p : ReadingPosition) (o : Option ReadingPosition × List ReadingPosition) → (saved p o).1 ≡ o.1
saved-rows p (some row, rows) = refl
saved-rows p (none, rows) = refl

upsert-there :
    (p : ReadingPosition) (rows : List ReadingPosition)
    → exists (position_key p.conversion_id) rows ≡ true
    → (save_if_newer p rows).1 ≡ update (is_older p) (overwritten p) rows
unfolding save_if_newer
upsert-there p rows e = saved-rows p (upsert p rows) ∙ ground arith

upsert-new :
    (p : ReadingPosition) (rows : List ReadingPosition)
    → exists (position_key p.conversion_id) rows ≡ false
    → (save_if_newer p rows).1 ≡ p ∷ rows
unfolding save_if_newer
upsert-new p rows e = saved-rows p (upsert p rows) ∙ ground arith

-- Where no row is of the conversion, none is older.
none_older :
    (p : ReadingPosition) (rows : List ReadingPosition)
    → exists (position_key p.conversion_id) rows ≡ false
    → update (is_older p) (overwritten p) rows ≡ rows
none_older p [] e = refl
none_older p (x ∷ xs) e = ground (arith, none_older p xs)

still_there :
    (p : ReadingPosition) (c : ℕ) (rows : List ReadingPosition)
    → exists (position_key c) (update (is_older p) (overwritten p) rows)
      ≡ exists (position_key c) rows
still_there p c [] = refl
still_there p c (x ∷ xs) = ground (arith, still_there p c xs)

updates-order :
    (p q : ReadingPosition) (rows : List ReadingPosition)
    → p.conversion_id ≡ q.conversion_id
    → p.owner_id ≡ q.owner_id
    → p.recorded_at < q.recorded_at
    → update (is_older q) (overwritten q) (update (is_older p) (overwritten p) rows)
      ≡ update (is_older p) (overwritten p) (update (is_older q) (overwritten q) rows)
updates-order p q [] c o lt = refl
updates-order p q (x ∷ xs) c o lt = ground (arith, updates-order p q xs c o lt)

then_saved :
    (p q : ReadingPosition) (rows : List ReadingPosition)
    → exists (position_key p.conversion_id) rows ≡ true
    → exists (position_key q.conversion_id) rows ≡ true
    → (save_if_newer q (save_if_newer p rows).1).1
      ≡ update (is_older q) (overwritten q) (update (is_older p) (overwritten p) rows)
then_saved p q rows e e' =
    ap (λ r. (save_if_newer q r).1) (upsert-there p rows e)
    ∙ upsert-there q _ (still_there p q.conversion_id rows ∙ e')

first_saved :
    (p q : ReadingPosition) (rows : List ReadingPosition)
    → p.conversion_id ≡ q.conversion_id
    → exists (position_key p.conversion_id) rows ≡ false
    → (save_if_newer q (save_if_newer p rows).1).1 ≡ update (is_older q) (overwritten q) (p ∷ rows)
first_saved p q rows c e =
    ap (λ r. (save_if_newer q r).1) (upsert-new p rows e) ∙ upsert-there q (p ∷ rows) (ground arith)

heads-order :
    (p q : ReadingPosition) (rows : List ReadingPosition)
    → p.conversion_id ≡ q.conversion_id
    → p.owner_id ≡ q.owner_id
    → p.recorded_at < q.recorded_at
    → exists (position_key p.conversion_id) rows ≡ false
    → exists (position_key q.conversion_id) rows ≡ false
    → update (is_older q) (overwritten q) (p ∷ rows)
      ≡ update (is_older p) (overwritten p) (q ∷ rows)
heads-order p q rows c o lt e e' = ground (arith, none_older p rows e, none_older q rows e')

orders-same :
    (p q : ReadingPosition) (rows : List ReadingPosition)
    → p.conversion_id ≡ q.conversion_id
    → p.owner_id ≡ q.owner_id
    → p.recorded_at < q.recorded_at
    → (save_if_newer q (save_if_newer p rows).1).1 ≡ (save_if_newer p (save_if_newer q rows).1).1
orders-same p q rows c o lt = elim (Bool-cases (exists (position_key p.conversion_id) rows)) [
  | inl e ↦
      let e' : exists (position_key q.conversion_id) rows ≡ true =
        ap (λ k. exists (position_key k) rows) (sym c) ∙ e in
      then_saved p q rows e e' ∙ updates-order p q rows c o lt ∙ sym (then_saved q p rows e' e)
  | inr e ↦
      let e' : exists (position_key q.conversion_id) rows ≡ false =
        ap (λ k. exists (position_key k) rows) (sym c) ∙ e in
      first_saved p q rows c e
      ∙ heads-order p q rows c o lt e e'
      ∙ sym (first_saved q p rows (sym c) e')
]

-- A row of the reader on the conversion that was recorded before the position.
abbrev pub is_outdated : ReadingPosition → ReadingPosition → Bool
is_outdated q row =
    row.conversion_id == q.conversion_id
    && (row.owner_id == q.owner_id && ltb row.recorded_at q.recorded_at)

none_outdated :
    (q : ReadingPosition) (rows : List ReadingPosition)
    → exists (is_outdated q) (update (is_older q) (overwritten q) rows) ≡ false
none_outdated q [] = refl
none_outdated q (x ∷ xs) = ground (arith, none_outdated q xs)

new_only :
    (q : ReadingPosition) (rows : List ReadingPosition)
    → exists (position_key q.conversion_id) rows ≡ false
    → exists (is_outdated q) rows ≡ false
new_only q [] e = refl
new_only q (x ∷ xs) e = ground (arith, new_only q xs)

save_if_newer-current :
    (q : ReadingPosition) (rows : List ReadingPosition)
    → (exists (is_outdated q) (save_if_newer q rows).1 ≡ false)
      × (exists (position_key q.conversion_id) (save_if_newer q rows).1 ≡ true)
save_if_newer-current q rows = elim (Bool-cases (exists (position_key q.conversion_id) rows)) [
  | inl e ↦ (
    ap (exists (is_outdated q)) (upsert-there q rows e) ∙ none_outdated q rows,
    ap (exists (position_key q.conversion_id)) (upsert-there q rows e)
        ∙ still_there q q.conversion_id rows
        ∙ e,
  )
  | inr e ↦ (
    ap (exists (is_outdated q)) (upsert-new q rows e) ∙ ground (arith, new_only q rows),
    ap (exists (position_key q.conversion_id)) (upsert-new q rows e) ∙ ground arith,
  )
]

-- Two positions of one conversion and owner, of which the second was recorded later, leave the same
-- table, whichever of the two requests comes first: it has a row for the conversion, and no row of
-- the owner for it that was recorded before the second position.
pub save_if_newer-order :
    (p q : ReadingPosition) (rows : List ReadingPosition)
    → p.conversion_id ≡ q.conversion_id
    → p.owner_id ≡ q.owner_id
    → p.recorded_at < q.recorded_at
    → ((save_if_newer q (save_if_newer p rows).1).1 ≡ (save_if_newer p (save_if_newer q rows).1).1)
      × (exists (position_key q.conversion_id) (save_if_newer q (save_if_newer p rows).1).1 ≡ true)
      × (exists (is_outdated q) (save_if_newer q (save_if_newer p rows).1).1 ≡ false)
save_if_newer-order p q rows c o lt =
    let (none_before, there) = save_if_newer-current q (save_if_newer p rows).1 in
    (orders-same p q rows c o lt, there, none_before)
