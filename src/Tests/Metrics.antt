-- ===== src/Tests/Metrics.antt =====
-- The usage metrics of the hub, with natural numbers as values.
use wkp.Base.{ℕ, ◌+◌, min, max, ◌≡◌, refl, ◌≢◌, List, [], ◌∷◌}
use wkp.Usage.Store.{Float}
use wkp.Usage.Record.{counter, gauge}
use wkp.Hub.Metrics.{seeded, set_tier_config, invalid_input, panicked}
use wkp.Hub.Metrics.Sound.{
  Command, record_command, tier_command, run, step, IsSound, run_never_panics,
}

abbrev sums : Float ℕ
sums = record { add = λ a b. a + b; lesser = min; greater = max }

-- An event, a change of the first tier, and an event in the same minute.
abbrev changed_tier : List (Command ℕ)
changed_tier =
    record_command 1 "latency" counter 5 61
    ∷ tier_command 0 30 100
    ∷ record_command 1 "latency" counter 7 65
    ∷ []

run_never_panics_example :
    IsSound sums (run sums seeded changed_tier)
    × (step sums (run sums seeded changed_tier) (record_command 1 "latency" gauge 1 70) ≢ panicked)
run_never_panics_example =
    run_never_panics sums changed_tier (record_command 1 "latency" gauge 1 70)

-- A step of 0 is refused.
no_step : set_tier_config 0 0 100 (seeded {V = ℕ}) ≡ invalid_input
unfolding set_tier_config
no_step = refl
