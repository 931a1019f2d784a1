-- ===== src/Usage/Record.antt =====
-- `record`, `record_counter` and `record_gauge` of usage/store.rs, with the catalog of metrics. A
-- transaction that fails leaves the tables as they were.
use wkp.Base.{
  ℕ, ◌+◌, String, ◌≡◌, refl, ◌∙◌, subst, ◌≢◌, ◌⊎◌, inl, inr, Bool, true, false, Option, none, some,
  List, [], ◌∷◌, arith, if◌then◌else◌, Bool-cases, Option-cases,
}
use text.Mathlib.Text.{◌==◌ as str_eq}
use text.Mathlib.TextPositions.{eq_refl}
use wkp.Base.Maps.{lookup, insert, lookup-insert}
use wkp.Registry.Defs.{string_equality}
use wkp.Usage.Store.{Float, Ring, all_tiers, floor_to_step, single, apply}
use wkp.Usage.Counts.{AllOpen, unused, no_tiers, one_more, open_counts, closes, apply-Applied}

pub data MetricKind : Type 0 where
  counter gauge : MetricKind

unfoldable pub kind_eq : MetricKind → MetricKind → Bool
kind_eq counter counter = true
kind_eq gauge gauge = true
kind_eq _ _ = false

kind_agrees : (a b : MetricKind) → kind_eq a b ≡ true → a ≡ b
unfolding kind_eq
kind_agrees counter counter h = refl
kind_agrees gauge gauge h = refl
kind_agrees counter gauge h = cc
kind_agrees gauge counter h = cc

kind_differs : (a b : MetricKind) → kind_eq a b ≡ false → a ≢ b
unfolding kind_eq
kind_differs counter counter h e = cc
kind_differs gauge gauge h e = cc
kind_differs counter gauge h e = cc
kind_differs gauge counter h e = cc

-- A row of the catalog, with the rings of its metric.
pub record Metric {ℓ} (V : Type ℓ) : Type ℓ where
  pub kind : MetricKind
  pub rings : List (Ring V)

abbrev pub Db {ℓ} : Type ℓ → Type ℓ
Db V = List (String × Metric V)

-- The result of `record`; `panicked` where an `expect` fails.
pub data Recorded {ℓ} (V : Type ℓ) : Type ℓ where
  stored : Db V → Recorded V
  metric_kind_mismatch : MetricKind → Recorded V
  panicked : Recorded V

module _ {ℓ} {V : Type ℓ} where
  abbrev pub empty_rings : List (Ring V)
  empty_rings =
      record { rows = []; cursor = none }
      ∷ record { rows = []; cursor = none }
      ∷ record { rows = []; cursor = none }
      ∷ []

  -- `get_or_create_metric`: the metric, or the kind that is stored.
  abbrev pub or_created : MetricKind → Option (Metric V) → Metric V
  or_created kind none = record { kind = kind; rings = empty_rings }
  or_created kind (some m) = m

  unfoldable pub get_or_create_metric : MetricKind → String → Db V → Metric V
  get_or_create_metric kind name db = or_created kind (lookup name db)

  -- The metric that an event finds, or a new one that has no windows.
  pub data Before (kind : MetricKind) (name : String) (db : Db V) : Metric V → Type ℓ where
    new : lookup name db ≡ none → Before kind name db (record { kind = kind; rings = empty_rings })
    known : {m : Metric V} → lookup name db ≡ some m → Before kind name db m

  module _ (float : Float V) where
    unfoldable pub record_event : String → MetricKind → V → ℕ → Db V → Recorded V
    unfolding get_or_create_metric kind_eq
    record_event name kind value now_secs db =
        let m = get_or_create_metric kind name db in
        if kind_eq m.kind kind
        then elim (apply float all_tiers m.rings (floor_to_step now_secs 60) (single value)) [
          | none ↦ panicked
          | some rings ↦ stored (insert name (record m { rings = rings }) db)
        ]
        else metric_kind_mismatch m.kind

    -- Every cursor of every metric is at its row.
    abbrev pub IsSound : Db V → Type ℓ
    IsSound db =
        (name : String) (m : Metric V) → lookup name db ≡ some m → AllOpen all_tiers m.rings

    created-AllOpen :
        (kind : MetricKind) (name : String) (db : Db V)
        → IsSound db
        → AllOpen all_tiers (get_or_create_metric kind name db).rings
    unfolding get_or_create_metric
    created-AllOpen kind name db sound = found (lookup name db) refl
      where
        found :
            (o : Option (Metric V))
            → lookup name db ≡ o
            → AllOpen all_tiers (or_created kind o).rings
        found none e = one_more unused (one_more unused (one_more unused no_tiers))
        found (some m) e = sound name m e

    -- What is stored: the other metrics are as they were, and the one that is recorded has one event
    -- more in its open windows, less those of a window of the coarsest tier that it closed.
    pub record Stores (name : String) (m : Metric V) (b : ℕ) (db db' : Db V) : Type ℓ where
      pub sound : IsSound db'
      pub others : (other : String) → str_eq name other ≡ false → lookup other db' ≡ lookup other db
      pub rings : List (Ring V)
      pub here : lookup name db' ≡ some (record { kind = m.kind; rings = rings })
      pub counts : open_counts rings + closes all_tiers m.rings b ≡ open_counts m.rings + 1

    stored-IsSound :
        (name : String) (m : Metric V) (db : Db V)
        → IsSound db
        → AllOpen all_tiers m.rings
        → IsSound (insert name m db)
    stored-IsSound name m db sound now other m' h = elim (Bool-cases (str_eq name other)) [
      | inl same ↦
          let e : some m ≡ some m' = ground (arith, h, same, lookup-insert name other m db) in
          some_open m' (some m) e now
      | inr apart ↦ sound other m' (ground (arith, h, apart, lookup-insert name other m db))
    ]
      where
        some_open :
            (m' : Metric V) (o : Option (Metric V))
            → o ≡ some m'
            → AllOpen all_tiers (or_created counter o).rings
            → AllOpen all_tiers m'.rings
        some_open m' o e h = subst (λ o. AllOpen all_tiers (or_created counter o).rings) e h

    stored-Stores :
        (name : String) (m : Metric V) (rings : List (Ring V)) (b : ℕ) (db : Db V)
        → IsSound db
        → AllOpen all_tiers rings
        → open_counts rings + closes all_tiers m.rings b ≡ open_counts m.rings + 1
        → Stores name m b db (insert name (record { kind = m.kind; rings = rings }) db)
    stored-Stores name m rings b db sound now counts =
        let new : Metric V = record { kind = m.kind; rings = rings } in
        record {
          sound = stored-IsSound name new db sound now;
          others = λ other h. lookup-insert name other new db ∙ rw h refl;
          rings = rings;
          here = lookup-insert name name new db ∙ rw (eq_refl name) refl;
          counts = counts;
        }

    created-Before :
        (kind : MetricKind) (name : String) (db : Db V)
        → Before kind name db (get_or_create_metric kind name db)
    unfolding get_or_create_metric
    created-Before kind name db = elim (Option-cases (lookup name db)) [
      | inl missing ↦ rw missing (new missing)
      | inr (m, found) ↦ rw found (known found)
    ]

    refused-Before :
        (kind : MetricKind) (name : String) (db : Db V) (m : Metric V)
        → Before kind name db m
        → m.kind ≢ kind
        → lookup name db ≡ some m
    refused-Before kind name db _ (new missing) other = absurd (other refl)
    refused-Before kind name db m (known found) other = found

    -- In a sound store, an event for a metric of another kind is refused with the metric's kind. One
    -- for a metric of its kind, or for a new metric, is stored: the metric's open windows have one
    -- event more, less those of a window of the coarsest tier that it closes, the other metrics are as
    -- they were and the store stays sound. It never panics.
    pub record_event_lem :
        (name : String) (kind : MetricKind) (value : V) (now_secs : ℕ) (db : Db V)
        → IsSound db
        → ((m : Metric V) × (lookup name db ≡ some m)
            × (m.kind ≢ kind)
            × (record_event name kind value now_secs db ≡ metric_kind_mismatch m.kind))
          ⊎ ((m : Metric V) × Before kind name db m
              × (m.kind ≡ kind)
              × (db' : Db V) × (record_event name kind value now_secs db ≡ stored db')
              × Stores name m (floor_to_step now_secs 60) db db')
    unfolding record_event single
    record_event_lem name kind value now_secs db sound =
        let m = get_or_create_metric kind name db in
        let b = floor_to_step now_secs 60 in
        let before = created-Before kind name db in
        let done =
          apply-Applied float _ _ m.rings b (single value) (created-AllOpen kind name db sound) in
        elim (Bool-cases (kind_eq m.kind kind)) [
          | inr other ↦
              let apart = kind_differs m.kind kind other in
              inl (m, refused-Before kind name db m before apart, apart, rw other refl)
          | inl same ↦ inr (
            m,
            before,
            kind_agrees m.kind kind same,
            insert name (record m { rings = done.rings' }) db,
            rw (same, done.returns) refl,
            stored-Stores name m done.rings' b db sound done.still_open done.counts,
          )
        ]
