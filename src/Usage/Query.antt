-- ===== src/Usage/Query.antt =====
-- `query_window` of usage/store.rs. `f_zero` is `0.0`, and a cutoff before the epoch is written as a
-- sum on the other side.
use wkp.Base.{
  ℕ, zero, suc, ◌+◌, ◌*◌, String, Bool, true, Option, none, some, List, [], ◌∷◌, ◌++◌, ltb, leb,
  if◌then◌else◌, or_else,
}
use wkp.Base.Maps.{lookup}
use wkp.Registry.Defs.{string_equality}
use wkp.Usage.Store.{Tier, SlotAgg, Float, Row, Ring, all_tiers, fetch_slot}
use wkp.Usage.Record.{Metric, Db}

-- `WindowAcc`
pub record WindowAcc {ℓ} (V : Type ℓ) : Type ℓ where
  pub n : ℕ
  pub sum : V
  pub least : Option V
  pub most : Option V
  pub last : V
  pub last_at : Option ℕ

pub record MetricSummary {ℓ} (V : Type ℓ) : Type ℓ where
  pub n : ℕ
  pub sum : V
  pub least : V
  pub most : V
  pub last : V
  pub last_at : Option ℕ

-- The index of the first tier whose span covers the window, else the last one.
unfoldable pub pick_tier_idx : List Tier → ℕ → ℕ
pick_tier_idx [] window = 0
pick_tier_idx (tier ∷ []) window = 0
pick_tier_idx (tier ∷ next ∷ tiers) window =
    let later = pick_tier_idx (next ∷ tiers) window in
    if leb window (tier.step_secs * tier.slots) then 0 else later + 1

abbrev pub is_later : Option ℕ → ℕ → Bool
is_later none bucket_start = true
is_later (some at) bucket_start = ltb at bucket_start

module _ {ℓ} {V : Type ℓ} (float : Float V) (f_zero : V) where
  abbrev pub default_acc : WindowAcc V
  default_acc = record {
    n = 0;
    sum = f_zero;
    least = none;
    most = none;
    last = f_zero;
    last_at = none;
  }

  abbrev combined : (V → V → V) → Option V → V → Option V
  combined f none v = some v
  combined f (some w) v = some (f w v)

  unfoldable pub absorb : WindowAcc V → ℕ → SlotAgg V → WindowAcc V
  absorb acc bucket_start agg = record {
    n = acc.n + agg.n;
    sum = float.add acc.sum agg.sum;
    least = combined float.lesser acc.least agg.least;
    most = combined float.greater acc.most agg.most;
    last = if is_later acc.last_at bucket_start then agg.last else acc.last;
    last_at = if is_later acc.last_at bucket_start then some bucket_start else acc.last_at;
  }

  unfoldable pub into_summary : WindowAcc V → MetricSummary V
  into_summary acc = record {
    n = acc.n;
    sum = acc.sum;
    least = or_else acc.least f_zero;
    most = or_else acc.most f_zero;
    last = acc.last;
    last_at = acc.last_at;
  }

  abbrev pub absorb_each : WindowAcc V → List (ℕ × SlotAgg V) → WindowAcc V
  absorb_each acc [] = acc
  absorb_each acc ((bucket_start, agg) ∷ entries) =
      absorb_each (absorb acc bucket_start agg) entries

  -- `bucket_start >= now - window`
  abbrev pub is_live : ℕ → ℕ → ℕ → Bool
  is_live now window bucket_start = leb now (bucket_start + window)

  -- The rows of the picked tier that are in the window.
  abbrev pub live_rows : ℕ → ℕ → List (ℕ × Row V) → List (ℕ × SlotAgg V)
  live_rows now window [] = []
  live_rows now window ((slot, row) ∷ rows) =
      let later = live_rows now window rows in
      if is_live now window row.bucket_start then (row.bucket_start, row.agg) ∷ later else later

  abbrev pub live_open : ℕ → ℕ → Ring V → List (ℕ × SlotAgg V)
  live_open now window ring = elim ring.cursor [
    | none ↦ []
    | some cursor ↦ elim (fetch_slot cursor.slot ring.rows) [
      | none ↦ []
      | some row ↦
          if is_live now window cursor.bucket_start then (cursor.bucket_start, row.agg) ∷ [] else []
    ]
  ]

  -- What a query absorbs, in its order: the rows of the picked tier, then the open windows of the
  -- finer ones.
  abbrev pub entries_at : ℕ → ℕ → ℕ → List (Ring V) → List (ℕ × SlotAgg V) → List (ℕ × SlotAgg V)
  entries_at idx now window [] finer = finer
  entries_at zero now window (ring ∷ rings) finer = live_rows now window ring.rows ++ finer
  entries_at (suc idx) now window (ring ∷ rings) finer =
      entries_at idx now window rings (finer ++ live_open now window ring)

  abbrev pub summary_of : ℕ → ℕ → Option (Metric V) → MetricSummary V
  summary_of now window none = into_summary default_acc
  summary_of now window (some m) =
      into_summary (
        absorb_each default_acc (entries_at (pick_tier_idx all_tiers window) now window m.rings []))

  unfoldable pub query_window : String → ℕ → ℕ → Db V → MetricSummary V
  unfolding pick_tier_idx into_summary
  query_window name window now db = summary_of now window (lookup name db)
