-- ===== src/Usage/Store.antt =====
-- The rings of one metric, and what an event does to them. Every statement on the tables has the
-- metric's id in its condition, so the rows of one metric stand for themselves. The floating-point
-- numbers and their operations are parameters; the clock is not before the epoch. `least` and `most` are the fields `min` and `max`.
use wkp.Base.{
  ℕ, ◌+◌, ◌*◌, ◌/◌, ◌%◌, Bool, true, false, Option, none, some, List, [], ◌∷◌, ltb, ◌==◌,
  if◌then◌else◌, map_option,
}

pub record Tier : Type 0 where
  pub step_secs : ℕ
  pub slots : ℕ

-- `TIERS`
abbrev pub all_tiers : List Tier
all_tiers =
    record { step_secs = 60; slots = 360 }
    ∷ record { step_secs = 900; slots = 1344 }
    ∷ record { step_secs = 21600; slots = 1460 }
    ∷ []

pub record SlotAgg {ℓ} (V : Type ℓ) : Type ℓ where
  pub n : ℕ
  pub sum : V
  pub least : V
  pub most : V
  pub last : V

-- The operations on `f64` that the store uses.
pub record Float {ℓ} (V : Type ℓ) : Type ℓ where
  pub add : V → V → V
  pub lesser : V → V → V
  pub greater : V → V → V

pub record Row {ℓ} (V : Type ℓ) : Type ℓ where
  pub bucket_start : ℕ
  pub agg : SlotAgg V

pub record Cursor : Type 0 where
  pub slot : ℕ
  pub bucket_start : ℕ

-- The rows of a tier's table, in the order of their slots, and the cursor of its open window.
pub record Ring {ℓ} (V : Type ℓ) : Type ℓ where
  pub rows : List (ℕ × Row V)
  pub cursor : Option Cursor

unfoldable pub floor_to_step : ℕ → ℕ → ℕ
floor_to_step secs step = secs / step * step

unfoldable pub slot_for : ℕ → Tier → ℕ
slot_for bucket_start tier = bucket_start / tier.step_secs % tier.slots

module _ {ℓ} {V : Type ℓ} where
  unfoldable pub single : V → SlotAgg V
  single v = record { n = 1; sum = v; least = v; most = v; last = v }

  unfoldable pub fetch_slot : ℕ → List (ℕ × Row V) → Option (Row V)
  fetch_slot slot [] = none
  fetch_slot slot ((s, row) ∷ rows) =
      let later = fetch_slot slot rows in if s == slot then some row else later

  unfoldable pub write_slot : ℕ → Row V → List (ℕ × Row V) → List (ℕ × Row V)
  write_slot slot row [] = (slot, row) ∷ []
  write_slot slot row ((s, old) ∷ rows) =
      let later = write_slot slot row rows in
      if s == slot
      then (slot, row) ∷ rows
      else if ltb slot s
      then (slot, row) ∷ (s, old) ∷ rows
      else (s, old) ∷ later

  -- A fresh window, in its slot.
  unfoldable pub open_window : Tier → ℕ → SlotAgg V → Ring V → Ring V
  unfolding slot_for
  open_window tier bucket_start incoming ring = record {
    rows =
        write_slot (slot_for bucket_start tier)
          (record { bucket_start = bucket_start; agg = incoming }) ring.rows;
    cursor = some (record { slot = slot_for bucket_start tier; bucket_start = bucket_start });
  }

  module _ (float : Float V) where
    unfoldable pub merged_with : SlotAgg V → SlotAgg V → Bool → SlotAgg V
    merged_with self incoming incoming_is_newer = record {
      n = self.n + incoming.n;
      sum = float.add self.sum incoming.sum;
      least = float.lesser self.least incoming.least;
      most = float.greater self.most incoming.most;
      last = if incoming_is_newer then incoming.last else self.last;
    }

    -- The window at the cursor, with the incoming one in it.
    unfoldable pub merge_window : Cursor → Row V → SlotAgg V → Bool → Ring V → Ring V
    unfolding merged_with
    merge_window cursor existing incoming newer ring = record ring {
      rows =
          write_slot cursor.slot
            (record {
              bucket_start = cursor.bucket_start;
              agg = merged_with existing.agg incoming newer;
            })
            ring.rows;
    }

    -- `apply`; `none` where `expect` panics.
    unfoldable pub apply : List Tier → List (Ring V) → ℕ → SlotAgg V → Option (List (Ring V))
    unfolding open_window merge_window
    apply [] rings bucket_start incoming = some rings
    apply (tier ∷ tiers) [] bucket_start incoming = some []
    apply (tier ∷ tiers) (ring ∷ rings) bucket_start incoming = elim ring.cursor [
      | none ↦ some (open_window tier bucket_start incoming ring ∷ rings)
      | some cursor ↦ elim (fetch_slot cursor.slot ring.rows) [
        | none ↦ none
        | some existing ↦
            if cursor.bucket_start == bucket_start
            then some (merge_window cursor existing incoming true ring ∷ rings)
            else if ltb bucket_start cursor.bucket_start
            then some (merge_window cursor existing incoming false ring ∷ rings)
            else map_option (λ coarser. open_window tier bucket_start incoming ring ∷ coarser)
                (elim tiers [
                  | [] ↦ some rings
                  | next ∷ _ ↦
                      apply tiers rings (floor_to_step cursor.bucket_start next.step_secs)
                        existing.agg
                ])
      ]
    ]
