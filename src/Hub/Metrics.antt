-- ===== src/Hub/Metrics.antt =====
-- control_plane/usage.rs: the usage metrics of the hub, whose tiers an operator can change. A number
-- that is negative in an argument is refused as one that is too large or 0. A row of
-- the rings has a tenant and a metric in its key. The windows are those of the client's store.
pub mod Sound
use wkp.Base.{
  ℕ, zero, suc, ◌+◌, ◌-◌, ◌*◌, ◌/◌, ◌%◌, ◌^◌, ◌≤◌, ◌<◌, min, max, String, ◌≡◌, refl, sym, ap, ap₂,
  ◌∙◌, subst, ◌≡⟨◌⟩◌, ◌∎, ◌≢◌, ◌↔◌, ◌⊎◌, inl, inr, Bool, true, false, not, ◌&&◌, ◌||◌, Option, none,
  some, List, [], ◌∷◌, ◌++◌, map, append-nil, append_assoc, arith, ltb, leb, ◌==◌, if◌then◌else◌,
  ==_iff, Bool-cases, Option-cases, &&-elim, length, take, drop, flatten, filter, take_while, all,
  any, is_empty, length-append, take-append, drop-append, filter_map, or_else, is_some, map_option,
  ◌>>=◌, all-append, drop_past, push_some,
}
use text.Mathlib.Text.{◌==◌ as str_eq}
use wkp.Base.Maps.{lookup, insert}
use wkp.Registry.Defs.{string_equality}
use wkp.Usage.Store.{Tier, Float, Ring, floor_to_step, single, apply}
use wkp.Usage.Record.{MetricKind, counter, gauge, kind_eq, empty_rings}

pub record Metrics {ℓ} (V : Type ℓ) : Type ℓ where
  pub config : List Tier
  pub kinds : List (String × MetricKind)
  pub rings : ℕ → String → List (Ring V)

-- What a call gives; a transaction that fails leaves the tables as they were.
pub data Outcome {ℓ} (V : Type ℓ) : Type ℓ where
  stored : Metrics V → Outcome V
  invalid_input : Outcome V
  panicked : Outcome V

-- `ON CONFLICT (tier_idx) DO UPDATE`, on a row that is there
abbrev pub replace_tier : ℕ → Tier → List Tier → List Tier
replace_tier i tier [] = []
replace_tier zero tier (t ∷ tiers) = tier ∷ tiers
replace_tier (suc i) tier (t ∷ tiers) = t ∷ replace_tier i tier tiers

-- The catalog with the metric, or nothing where it has the other kind.
abbrev pub with_kind :
    String
    → MetricKind
    → List (String × MetricKind)
    → Option MetricKind
    → Option (List (String × MetricKind))
with_kind name kind kinds none = some (insert name kind kinds)
with_kind name kind kinds (some stored_kind) = if kind_eq stored_kind kind then some kinds else none

unfoldable pub get_or_create_kind :
    String → MetricKind → List (String × MetricKind) → Option (List (String × MetricKind))
unfolding kind_eq lookup insert
get_or_create_kind name kind kinds = with_kind name kind kinds (lookup name kinds)

abbrev pub is_row : ℕ → String → ℕ → String → Bool
is_row tenant_id name tenant_id' name' = tenant_id' == tenant_id && str_eq name' name

module _ {ℓ} {V : Type ℓ} where
  -- The rows that `create_schema` puts in.
  abbrev pub seeded : Metrics V
  seeded = record {
    config =
        record { step_secs = 60; slots = 360 }
        ∷ record { step_secs = 900; slots = 1344 }
        ∷ record { step_secs = 21600; slots = 1460 }
        ∷ [];
    kinds = [];
    rings = λ tenant_id name. empty_rings;
  }

  -- `DELETE ... WHERE tier_idx`, in the rings and the cursors
  abbrev pub delete_tier : ℕ → List (Ring V) → List (Ring V)
  delete_tier i [] = []
  delete_tier zero (ring ∷ rings) = record { rows = []; cursor = none } ∷ rings
  delete_tier (suc i) (ring ∷ rings) = ring ∷ delete_tier i rings

  unfoldable pub set_tier_config : ℕ → ℕ → ℕ → Metrics V → Outcome V
  set_tier_config tier_idx step_secs slots m =
      if ltb 2 tier_idx
      then invalid_input
      else if ltb step_secs 1 || ltb slots 1
      then invalid_input
      else stored (record m {
        config = replace_tier tier_idx (record { step_secs = step_secs; slots = slots }) m.config;
        rings = λ tenant_id name. delete_tier tier_idx (m.rings tenant_id name);
      })

  abbrev pub put_rings : ℕ → String → List (Ring V) → Metrics V → Metrics V
  put_rings tenant_id name rings m = record m {
    rings = λ t n. if is_row tenant_id name t n then rings else m.rings t n;
  }

  abbrev pub stored_rings :
      ℕ → String → List (String × MetricKind) → Metrics V → Option (List (Ring V)) → Outcome V
  stored_rings tenant_id name kinds m none = panicked
  stored_rings tenant_id name kinds m (some rings) =
      stored (put_rings tenant_id name rings (record m { kinds = kinds }))

  module _ (float : Float V) where
    -- From `load_tier_config` on
    unfoldable pub record_in :
        ℕ → String → V → ℕ → Metrics V → List Tier → Option (List (String × MetricKind)) → Outcome V
    unfolding floor_to_step single apply
    record_in tenant_id name value at m tiers none = invalid_input
    record_in tenant_id name value at m [] (some kinds) = invalid_input
    record_in tenant_id name value at m (tier ∷ tiers) (some kinds) =
        stored_rings tenant_id name kinds m (
          apply float (tier ∷ tiers) (m.rings tenant_id name) (floor_to_step at tier.step_secs)
            (single value))

    unfoldable pub record_metric : ℕ → String → MetricKind → V → ℕ → Metrics V → Outcome V
    unfolding record_in get_or_create_kind
    record_metric tenant_id name kind value at m =
        record_in tenant_id name value at m m.config (get_or_create_kind name kind m.kinds)
