-- ===== src/Tests/Usage.antt =====
-- The usage counters, with natural numbers as values: usage/store.rs.
use wkp.Base.{ℕ, ◌+◌, min, max, ◌≡◌, refl, ◌≢◌, ◌⊎◌, none, some, List, [], ◌∷◌}
use wkp.Base.Maps.{lookup}
use wkp.Registry.Defs.{string_equality}
use wkp.Usage.Store.{
  Tier, SlotAgg, Float, Row, Cursor, Ring, all_tiers, single, apply, fetch_slot, write_slot,
  slot_for, floor_to_step, open_window,
}
use wkp.Usage.Counts.{AllOpen, used, unused, one_more, no_tiers, Applied, apply-Applied}
use wkp.Usage.Record.{
  counter, Metric, Db, record_event, record_event_lem, IsSound, Stores, Before, stored,
  metric_kind_mismatch,
}
use wkp.Usage.Query.{query_window}
use wkp.Usage.Window.{IsPicked, in_window, recorded}
use wkp.Usage.Latest.{query_window_lem, events, IsLatest}

abbrev sums : Float ℕ
sums = record { add = λ a b. a + b; lesser = min; greater = max }

-- Two events in the minute that begins at 60.
abbrev two_events : SlotAgg ℕ
two_events = record { n = 2; sum = 9; least = 4; most = 5; last = 5 }

abbrev minute_rows : List (ℕ × Row ℕ)
minute_rows = (1, record { bucket_start = 60; agg = two_events }) ∷ []

abbrev minute : Cursor
minute = record { slot = 1; bucket_start = 60 }

abbrev no_events : Ring ℕ
no_events = record { rows = []; cursor = none }

abbrev rings : List (Ring ℕ)
rings = record { rows = minute_rows; cursor = some minute } ∷ no_events ∷ no_events ∷ []

rings-AllOpen : AllOpen all_tiers rings
unfolding fetch_slot slot_for
rings-AllOpen =
    one_more
      (used (record {
        row = record { bucket_start = 60; agg = two_events };
        found = refl;
        bucket = refl;
        placed = refl;
      }))
      (one_more unused (one_more unused no_tiers))

abbrev first_tier : Tier
first_tier = record { step_secs = 60; slots = 360 }

abbrev coarser_tiers : List Tier
coarser_tiers =
    record { step_secs = 900; slots = 1344 } ∷ record { step_secs = 21600; slots = 1460 } ∷ []

-- The event of the next minute closes the window.
apply-Applied_example : Applied sums all_tiers rings 120 (single 7)
apply-Applied_example =
    apply-Applied sums first_tier coarser_tiers rings 120 (single 7) rings-AllOpen

abbrev no_metrics : Db ℕ
no_metrics = []

no_metrics-IsSound : IsSound sums no_metrics
unfolding lookup
no_metrics-IsSound name m h = cc

record_event_lem_example :
    ((m : Metric ℕ) × (lookup "search" no_metrics ≡ some m)
      × (m.kind ≢ counter)
      × (record_event sums "search" counter 7 100 no_metrics ≡ metric_kind_mismatch m.kind))
    ⊎ ((m : Metric ℕ) × Before counter "search" no_metrics m
        × (m.kind ≡ counter)
        × (db' : Db ℕ) × (record_event sums "search" counter 7 100 no_metrics ≡ stored db')
        × Stores sums "search" m (floor_to_step 100 60) no_metrics db')
record_event_lem_example =
    record_event_lem sums "search" counter 7 100 no_metrics no_metrics-IsSound

abbrev searches : Metric ℕ
searches = record { kind = counter; rings = rings }

abbrev one_metric : Db ℕ
one_metric = ("search", searches) ∷ []

search-found : lookup "search" one_metric ≡ some searches
unfolding lookup
search-found = refl

query_window_lem_example :
    (idx : ℕ) × IsPicked all_tiers 3600 idx
    × ((query_window sums 0 "search" 3600 100 one_metric).n
        ≡ events (in_window 100 3600 (recorded idx rings [])))
    × IsLatest
        (in_window 100 3600 (recorded idx rings []))
        (query_window sums 0 "search" 3600 100 one_metric).last
        (query_window sums 0 "search" 3600 100 one_metric).last_at
query_window_lem_example =
    query_window_lem sums 0 "search" 3600 100 one_metric searches search-found

-- A window closes into the next tier, and a query of the last day finds both.
closing :
    apply sums all_tiers rings 120 (single 7)
    ≡ some (
        record {
          rows =
              (1, record { bucket_start = 60; agg = two_events })
              ∷ (2, record { bucket_start = 120; agg = single 7 })
              ∷ [];
          cursor = some (record { slot = 2; bucket_start = 120 });
        }
        ∷ record {
          rows = (0, record { bucket_start = 0; agg = two_events }) ∷ [];
          cursor = some (record { slot = 0; bucket_start = 0 });
        }
        ∷ no_events
        ∷ [])
unfolding apply fetch_slot write_slot slot_for floor_to_step open_window single
closing = refl
