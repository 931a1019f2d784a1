-- ===== src/Usage/Window.antt =====
-- Which entries a query of the usage counters takes.
use wkp.Base.{
  ℕ, zero, suc, ◌+◌, ◌*◌, ◌≤◌, ◌<◌, ◌≡◌, refl, sym, ap, ◌∙◌, subst, inl, inr, Option, none, some,
  List, [], ◌∷◌, ◌++◌, arith, leb, if◌then◌else◌, Bool-cases, filter,
}
use wkp.Usage.Store.{SlotAgg, Float, Tier, Row, Ring, Cursor, fetch_slot}
use wkp.Usage.Query.{pick_tier_idx, entries_at, live_rows, live_open, is_live}

-- The first tier whose windows together cover the query's, or else the last tier.
pub data IsPicked : List Tier → ℕ → ℕ → Type 0 where
  last_tier : {tier : Tier} {window : ℕ} → IsPicked (tier ∷ []) window 0
  covers_it :
      {tier : Tier} {tiers : List Tier} {window : ℕ}
      → window ≤ tier.step_secs * tier.slots
      → IsPicked (tier ∷ tiers) window 0
  too_short :
      {tier : Tier} {tiers : List Tier} {window idx : ℕ}
      → tier.step_secs * tier.slots < window
      → IsPicked tiers window idx
      → IsPicked (tier ∷ tiers) window (suc idx)

pub pick_tier_idx-IsPicked :
    (tier : Tier) (tiers : List Tier) (window : ℕ)
    → IsPicked (tier ∷ tiers) window (pick_tier_idx (tier ∷ tiers) window)
unfolding pick_tier_idx
pick_tier_idx-IsPicked tier [] window = last_tier
pick_tier_idx-IsPicked tier (next ∷ tiers) window =
    elim (Bool-cases (leb window (tier.step_secs * tier.slots))) [
      | inl e ↦ rw e (covers_it (ground (arith, e)))
      | inr e ↦ rw e (
          subst (IsPicked (tier ∷ next ∷ tiers) window) (omega arith)
            (too_short (ground (arith, e)) (pick_tier_idx-IsPicked next tiers window)))
    ]

module _ {ℓ} {V : Type ℓ} where
  -- What a ring holds, each with the begin of its window.
  abbrev pub rows_of : List (ℕ × Row V) → List (ℕ × SlotAgg V)
  rows_of [] = []
  rows_of ((slot, row) ∷ rows) = (row.bucket_start, row.agg) ∷ rows_of rows

  abbrev pub open_of : Ring V → List (ℕ × SlotAgg V)
  open_of ring = elim ring.cursor [
    | none ↦ []
    | some cursor ↦ elim (fetch_slot cursor.slot ring.rows) [
      | none ↦ []
      | some row ↦ (cursor.bucket_start, row.agg) ∷ []
    ]
  ]

  -- The rows of the ring at the index behind `finer` and the open windows of the rings before it.
  abbrev pub recorded : ℕ → List (Ring V) → List (ℕ × SlotAgg V) → List (ℕ × SlotAgg V)
  recorded idx [] finer = finer
  recorded zero (ring ∷ rings) finer = rows_of ring.rows ++ finer
  recorded (suc idx) (ring ∷ rings) finer = recorded idx rings (finer ++ open_of ring)

  -- The entries that begin within the last `window` seconds.
  abbrev pub in_window : ℕ → ℕ → List (ℕ × SlotAgg V) → List (ℕ × SlotAgg V)
  in_window now window entries = filter (λ (e : ℕ × SlotAgg V). leb now (e.0 + window)) entries

  in_window-append :
      (now window : ℕ) (xs ys : List (ℕ × SlotAgg V))
      → in_window now window (xs ++ ys) ≡ in_window now window xs ++ in_window now window ys
  in_window-append now window [] ys = refl
  in_window-append now window ((at, agg) ∷ xs) ys = elim (Bool-cases (leb now (at + window))) [
    | inl e ↦ rw e (ap (λ l. (at, agg) ∷ l) (in_window-append now window xs ys))
    | inr e ↦ rw e (in_window-append now window xs ys)
  ]

  module _ (float : Float V) (f_zero : V) where
    found-filter :
        (now window at : ℕ) (o : Option (Row V))
        → (elim o as (λ _. List (ℕ × SlotAgg V)) [
          | none ↦ []
          | some row ↦ if is_live float f_zero now window at then (at, row.agg) ∷ [] else []
        ])
          ≡ in_window now window
              (elim o as (λ _. List (ℕ × SlotAgg V)) [ none ↦ [] | some row ↦ (at, row.agg) ∷ [] ])
    found-filter now window at none = refl
    found-filter now window at (some row) = refl

    live_open-filter :
        (now window : ℕ) (rows : List (ℕ × Row V)) (o : Option Cursor)
        → live_open float f_zero now window (record { rows = rows; cursor = o })
          ≡ in_window now window (open_of (record { rows = rows; cursor = o }))
    live_open-filter now window rows none = refl
    live_open-filter now window rows (some cursor) =
        found-filter now window cursor.bucket_start (fetch_slot cursor.slot rows)

    live_rows-filter :
        (now window : ℕ) (rows : List (ℕ × Row V))
        → live_rows float f_zero now window rows ≡ in_window now window (rows_of rows)
    live_rows-filter now window [] = refl
    live_rows-filter now window ((slot, row) ∷ rows) = rw (live_rows-filter now window rows) refl

    pub entries_at-filter :
        (idx now window : ℕ) (rings : List (Ring V)) (finer : List (ℕ × SlotAgg V))
        → entries_at float f_zero idx now window rings (in_window now window finer)
          ≡ in_window now window (recorded idx rings finer)
    entries_at-filter idx now window [] finer = refl
    entries_at-filter zero now window (ring ∷ rings) finer =
        rw (live_rows-filter now window ring.rows)
          (sym (in_window-append now window (rows_of ring.rows) finer))
    entries_at-filter (suc idx) now window (ring ∷ rings) finer =
        ap (entries_at float f_zero idx now window rings) (
          ap (λ l. in_window now window finer ++ l)
            (live_open-filter now window ring.rows ring.cursor)
          ∙ sym (in_window-append now window finer (open_of ring)))
        ∙ entries_at-filter idx now window rings (finer ++ open_of ring)
