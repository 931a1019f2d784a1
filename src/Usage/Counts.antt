-- ===== src/Usage/Counts.antt =====
-- No event is lost or counted twice: the counts of the open windows.
use wkp.Base.{
  ℕ, ◌+◌, ◌≤◌, ◌≡◌, refl, ap, ◌∙◌, inl, inr, Bool, true, false, Option, none, some, List, [], ◌∷◌,
  arith, ltb, ◌==◌, if◌then◌else◌, ==_iff, Bool-cases,
}
use wkp.Usage.Store.{
  Tier, SlotAgg, Float, Row, Cursor, Ring, floor_to_step, slot_for, fetch_slot, write_slot,
  open_window, merged_with, merge_window, apply,
}

module _ {ℓ} {V : Type ℓ} where
  fetch_slot-write_slot :
      (j k : ℕ) (row : Row V) (rows : List (ℕ × Row V))
      → fetch_slot k (write_slot j row rows) ≡ (if j == k then some row else fetch_slot k rows)
  unfolding fetch_slot write_slot
  fetch_slot-write_slot j k row [] = ground arith
  fetch_slot-write_slot j k row ((s, old) ∷ rows) =
      ground (arith, fetch_slot-write_slot j k row rows, ==_iff s j, ==_iff s k, ==_iff j k)

  fetch_slot-written :
      (k : ℕ) (row : Row V) (rows : List (ℕ × Row V))
      → fetch_slot k (write_slot k row rows) ≡ some row
  fetch_slot-written k row rows = fetch_slot-write_slot k k row rows ∙ ground (arith, ==_iff k k)

  abbrev pub count_of : Option (Row V) → ℕ
  count_of none = 0
  count_of (some row) = row.agg.n

  -- The events in the open window of a ring.
  abbrev pub open_count : Ring V → ℕ
  open_count ring = elim ring.cursor [
    | none ↦ 0
    | some cursor ↦ count_of (fetch_slot cursor.slot ring.rows)
  ]

  abbrev pub open_counts : List (Ring V) → ℕ
  open_counts [] = 0
  open_counts (ring ∷ rings) = open_count ring + open_counts rings

  -- The cursor is at a row of its own bucket, in that bucket's slot.
  pub record IsAt (tier : Tier) (rows : List (ℕ × Row V)) (cursor : Cursor) : Type ℓ where
    pub row : Row V
    pub found : fetch_slot cursor.slot rows ≡ some row
    pub bucket : row.bucket_start ≡ cursor.bucket_start
    pub placed : cursor.slot ≡ slot_for cursor.bucket_start tier

  pub data IsOpen (tier : Tier) : Ring V → Type ℓ where
    unused : {rows : List (ℕ × Row V)} → IsOpen tier (record { rows = rows; cursor = none })
    used :
        {rows : List (ℕ × Row V)} {cursor : Cursor}
        → IsAt tier rows cursor
        → IsOpen tier (record { rows = rows; cursor = some cursor })

  pub data AllOpen : List Tier → List (Ring V) → Type ℓ where
    no_tiers : AllOpen [] []
    one_more :
        {tier : Tier} {tiers : List Tier} {ring : Ring V} {rings : List (Ring V)}
        → IsOpen tier ring
        → AllOpen tiers rings
        → AllOpen (tier ∷ tiers) (ring ∷ rings)

  -- The events of the window of the coarsest tier, if the event at `bucket_start` closes it.
  abbrev pub closes : List Tier → List (Ring V) → ℕ → ℕ
  closes [] rings bucket_start = 0
  closes (tier ∷ tiers) [] bucket_start = 0
  closes (tier ∷ tiers) (ring ∷ rings) bucket_start = elim ring.cursor [
    | none ↦ 0
    | some cursor ↦
        let coarser : ℕ = elim tiers [
          | [] ↦ open_count ring
          | next ∷ _ ↦ closes tiers rings (floor_to_step cursor.bucket_start next.step_secs)
        ] in
        if ltb cursor.bucket_start bucket_start then coarser else 0
  ]

  open_window-IsOpen :
      (tier : Tier) (b : ℕ) (a : SlotAgg V) (ring : Ring V)
      → IsOpen tier (open_window tier b a ring)
  unfolding open_window
  open_window-IsOpen tier b a ring = used record {
    row = record { bucket_start = b; agg = a };
    found = fetch_slot-written (slot_for b tier) (record { bucket_start = b; agg = a }) ring.rows;
    bucket = refl;
    placed = refl;
  }

  open_count-open_window :
      (tier : Tier) (b : ℕ) (a : SlotAgg V) (ring : Ring V)
      → open_count (open_window tier b a ring) ≡ a.n
  unfolding open_window
  open_count-open_window tier b a ring =
      ap count_of
        (fetch_slot-written (slot_for b tier) (record { bucket_start = b; agg = a }) ring.rows)

  module _ (float : Float V) where
    merge_window-IsOpen :
        (tier : Tier) (rows : List (ℕ × Row V)) (c : Cursor) (a : SlotAgg V) (newer : Bool)
        (at_row : IsAt tier rows c)
        → IsOpen tier
            (merge_window float c at_row.row a newer (record { rows = rows; cursor = some c }))
    unfolding merge_window
    merge_window-IsOpen tier rows c a newer at_row = used record {
      row = record {
        bucket_start = c.bucket_start;
        agg = merged_with float at_row.row.agg a newer;
      };
      found = fetch_slot-written c.slot _ rows;
      bucket = refl;
      placed = at_row.placed;
    }

    open_count-merge_window :
        (rows : List (ℕ × Row V)) (c : Cursor) (row : Row V) (a : SlotAgg V) (newer : Bool)
        → open_count (merge_window float c row a newer (record { rows = rows; cursor = some c }))
          ≡ row.agg.n + a.n
    unfolding merge_window merged_with
    open_count-merge_window rows c row a newer = ap count_of (fetch_slot-written c.slot _ rows)

    -- What `apply` leaves.
    pub record Applied (tiers : List Tier) (rings : List (Ring V)) (b : ℕ) (a : SlotAgg V)
        : Type ℓ where
      pub rings' : List (Ring V)
      pub returns : apply float tiers rings b a ≡ some rings'
      pub still_open : AllOpen tiers rings'
      pub counts : open_counts rings' + closes tiers rings b ≡ open_counts rings + a.n

    -- The event falls into the open window, or before it.
    merge-Applied :
        (tier : Tier) (tiers : List Tier) (rows : List (ℕ × Row V)) (c : Cursor)
        (rings : List (Ring V)) (b : ℕ) (a : SlotAgg V)
        → AllOpen tiers rings
        → IsAt tier rows c
        → b ≤ c.bucket_start
        → Applied (tier ∷ tiers) (record { rows = rows; cursor = some c } ∷ rings) b a
    unfolding apply
    merge-Applied tier tiers rows c rings b a open_rings at_row h =
        let ring : Ring V = record { rows = rows; cursor = some c } in
        let newer = c.bucket_start == b in
        let shut : ltb c.bucket_start b ≡ false = ground (arith, h) in
        let old = ap count_of at_row.found in
        record {
          rings' = merge_window float c at_row.row a newer ring ∷ rings;
          returns = elim (Bool-cases (c.bucket_start == b)) [
            | inl e ↦ rw (apply, at_row.found, e) refl
            | inr e ↦
                let before : ltb b c.bucket_start ≡ true = ground (arith, h, e) in
                rw (apply, at_row.found, e, before) refl
          ];
          still_open = one_more (merge_window-IsOpen tier rows c a newer at_row) open_rings;
          counts = rw shut (omega (arith, old, open_count-merge_window rows c at_row.row a newer));
        }

    -- With every cursor at its row, `apply` does not panic, leaves every cursor at its row, and
    -- counts each event once: the events in the open windows of all tiers, with those of the window
    -- of the coarsest tier that it closes, are the events that were in the open windows and the
    -- incoming ones.
    pub apply-Applied :
        (tier : Tier) (tiers : List Tier) (rings : List (Ring V)) (b : ℕ) (a : SlotAgg V)
        → AllOpen (tier ∷ tiers) rings
        → Applied (tier ∷ tiers) rings b a
    unfolding apply
    apply-Applied tier tiers _ b a (one_more {ring = ring} {rings} (unused {rows}) open_rings) =
        record {
          rings' = open_window tier b a ring ∷ rings;
          returns = refl;
          still_open = one_more (open_window-IsOpen tier b a ring) open_rings;
          counts = omega (arith, open_count-open_window tier b a ring);
        }
    apply-Applied tier [] _ b a (one_more (used {rows} {cursor = c} at_row) no_tiers) =
        elim (Bool-cases (ltb c.bucket_start b)) [
          | inr late ↦ merge-Applied tier [] rows c [] b a no_tiers at_row (ground (arith, late))
          | inl early ↦
              let ring : Ring V = record { rows = rows; cursor = some c } in
              let other : (c.bucket_start == b) ≡ false = ground (arith, early) in
              let not_late : ltb b c.bucket_start ≡ false = ground (arith, early) in
              record {
                rings' = open_window tier b a ring ∷ [];
                returns = rw (apply, at_row.found, other, not_late) refl;
                still_open = one_more (open_window-IsOpen tier b a ring) no_tiers;
                counts = rw early (omega (arith, open_count-open_window tier b a ring));
              }
        ]
    apply-Applied tier (next ∷ tiers) _ b a
          (one_more {rings = rings} (used {rows} {cursor = c} at_row) open_rings) =
        elim (Bool-cases (ltb c.bucket_start b)) [
          | inr late ↦
              merge-Applied tier (next ∷ tiers) rows c rings b a open_rings at_row
                (ground (arith, late))
          | inl early ↦
              let ring : Ring V = record { rows = rows; cursor = some c } in
              let up = floor_to_step c.bucket_start next.step_secs in
              let coarser = apply-Applied next tiers rings up at_row.row.agg open_rings in
              let other : (c.bucket_start == b) ≡ false = ground (arith, early) in
              let not_late : ltb b c.bucket_start ≡ false = ground (arith, early) in
              let old = ap count_of at_row.found in
              record {
                rings' = open_window tier b a ring ∷ coarser.rings';
                returns = rw (apply, at_row.found, other, not_late, coarser.returns) refl;
                still_open = one_more (open_window-IsOpen tier b a ring) coarser.still_open;
                counts =
                    rw early
                      (omega (arith, old, coarser.counts, open_count-open_window tier b a ring));
              }
        ]
