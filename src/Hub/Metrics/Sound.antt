-- ===== src/Hub/Metrics/Sound.antt =====
-- No recording panics, however the tiers have been changed.
use wkp.Base.{
  ℕ, zero, suc, String, ◌≡◌, refl, sym, subst, ◌≢◌, Bool, true, ◌&&◌, ◌||◌, Option, none, some,
  List, [], ◌∷◌, arith, ltb, leb, all,
}
use wkp.Base.Branch.{branch}
use wkp.Usage.Store.{Tier, Float, Ring, floor_to_step, single}
use wkp.Usage.Counts.{AllOpen, unused, no_tiers, one_more, apply-Applied}
use wkp.Usage.Record.{MetricKind}
use wkp.Hub.Metrics.{
  Metrics, Outcome, stored, invalid_input, panicked, seeded, replace_tier, delete_tier,
  set_tier_config, get_or_create_kind, is_row, put_rings, record_in, record_metric,
}

-- What a transaction leaves.
abbrev pub left_by {ℓ} : {V : Type ℓ} → Metrics V → Outcome V → Metrics V
left_by m (stored m') = m'
left_by m invalid_input = m
left_by m panicked = m

-- A recording, or a change of the tiers.
pub data Command {ℓ} (V : Type ℓ) : Type ℓ where
  record_command : ℕ → String → MetricKind → V → ℕ → Command V
  tier_command : ℕ → ℕ → ℕ → Command V

abbrev is_usable : Tier → Bool
is_usable tier = leb 1 tier.step_secs && leb 1 tier.slots

module _ {ℓ} {V : Type ℓ} (float : Float V) where
  unfoldable pub step : Metrics V → Command V → Outcome V
  unfolding record_metric set_tier_config
  step m (record_command tenant_id name kind value at) =
      record_metric float tenant_id name kind value at m
  step m (tier_command tier_idx step_secs slots) = set_tier_config tier_idx step_secs slots m

  unfoldable pub run : Metrics V → List (Command V) → Metrics V
  unfolding step
  run m [] = m
  run m (command ∷ commands) = run (left_by m (step m command)) commands

  -- No division is by 0, and each cursor is at its row.
  pub record IsSound (m : Metrics V) : Type ℓ where
    pub usable : all is_usable m.config ≡ true
    pub opened : (tenant_id : ℕ) (name : String) → AllOpen m.config (m.rings tenant_id name)

  seeded-IsSound : IsSound seeded
  seeded-IsSound = record {
    usable = refl;
    opened = λ tenant_id name. one_more unused (one_more unused (one_more unused no_tiers));
  }

  deleted-AllOpen :
      (i : ℕ) (tier : Tier) (tiers : List Tier) (rings : List (Ring V))
      → AllOpen tiers rings
      → AllOpen (replace_tier i tier tiers) (delete_tier i rings)
  deleted-AllOpen i tier _ _ no_tiers = no_tiers
  deleted-AllOpen zero tier _ _ (one_more here rest) = one_more unused rest
  deleted-AllOpen (suc i) tier _ _ (one_more here rest) =
      one_more here (deleted-AllOpen i tier _ _ rest)

  usable-replace_tier :
      (i : ℕ) (tier : Tier) (tiers : List Tier)
      → is_usable tier ≡ true
      → all is_usable tiers ≡ true
      → all is_usable (replace_tier i tier tiers) ≡ true
  usable-replace_tier i tier [] u h = refl
  usable-replace_tier zero tier (t ∷ tiers) u h = ground (arith, u, h)
  usable-replace_tier (suc i) tier (t ∷ tiers) u h =
      ground (arith, h, usable-replace_tier i tier tiers u)

  -- The call has not panicked and what it leaves is sound.
  abbrev IsFine : Metrics V → Outcome V → Type ℓ
  IsFine m o = IsSound (left_by m o) × (o ≢ panicked)

  set_tier_config-IsFine :
      (i step_secs slots : ℕ) (m : Metrics V)
      → IsSound m
      → IsFine m (set_tier_config i step_secs slots m)
  unfolding set_tier_config
  set_tier_config-IsFine i step_secs slots m h =
      let fine : IsFine m invalid_input = (h, λ e. ground (arith, e)) in
      let tier : Tier = record { step_secs = step_secs; slots = slots } in
      branch (IsFine m) (ltb 2 i) _ _ (λ _. fine)
        λ _.
          branch (IsFine m) (ltb step_secs 1 || ltb slots 1) _ _ (λ _. fine)
            λ e. (
              record {
                usable = usable-replace_tier i tier m.config (ground (arith, e)) h.usable;
                opened = λ tenant_id name.
                    deleted-AllOpen i tier m.config (m.rings tenant_id name)
                      (h.opened tenant_id name);
              },
              λ e. ground (arith, e),
            )

  put_rings-IsSound :
      (tenant_id : ℕ) (name : String) (rings : List (Ring V)) (m : Metrics V)
      → IsSound m
      → AllOpen m.config rings
      → IsSound (put_rings tenant_id name rings m)
  put_rings-IsSound tenant_id name rings m h now = record {
    usable = h.usable;
    opened = λ t n.
        branch (λ (r : List (Ring V)). AllOpen m.config r) (is_row tenant_id name t n) rings
          (m.rings t n) (λ _. now) (λ _. h.opened t n);
  }

  record_in-IsFine :
      (tenant_id : ℕ) (name : String) (value : V) (at : ℕ) (m : Metrics V) (tiers : List Tier)
      (o : Option (List (String × MetricKind)))
      → IsSound m
      → m.config ≡ tiers
      → IsFine m (record_in float tenant_id name value at m tiers o)
  unfolding record_in
  record_in-IsFine tenant_id name value at m tiers none h e = (h, λ e. ground (arith, e))
  record_in-IsFine tenant_id name value at m [] (some kinds) h e = (h, λ e. ground (arith, e))
  record_in-IsFine tenant_id name value at m (tier ∷ tiers) (some kinds) h e =
      let now : AllOpen (tier ∷ tiers) (m.rings tenant_id name) =
        subst (λ c. AllOpen c (m.rings tenant_id name)) e (h.opened tenant_id name) in
      let done =
        apply-Applied float tier tiers (m.rings tenant_id name) (floor_to_step at tier.step_secs)
          (single value) now in
      let kept : AllOpen m.config done.rings' =
        subst (λ c. AllOpen c done.rings') (sym e) done.still_open in
      let sound : IsSound (record m { kinds = kinds }) = record {
        usable = h.usable;
        opened = h.opened;
      } in
      rw done.returns (
        put_rings-IsSound tenant_id name done.rings' (record m { kinds = kinds }) sound kept,
        λ e. ground (arith, e),
      )

  step-IsFine : (m : Metrics V) (command : Command V) → IsSound m → IsFine m (step m command)
  unfolding step record_metric
  step-IsFine m (record_command tenant_id name kind value at) h =
      record_in-IsFine tenant_id name value at m m.config (get_or_create_kind name kind m.kinds) h
        refl
  step-IsFine m (tier_command i step_secs slots) h = set_tier_config-IsFine i step_secs slots m h

  run-IsSound : (m : Metrics V) (commands : List (Command V)) → IsSound m → IsSound (run m commands)
  unfolding run
  run-IsSound m [] h = h
  run-IsSound m (command ∷ commands) h =
      run-IsSound (left_by m (step m command)) commands (step-IsFine m command h).0

  -- After any recordings and changes of the tiers, each tier has a step and a number of slots of at
  -- least 1, each cursor is at its row, and the next call does not panic.
  pub run_never_panics :
      (commands : List (Command V)) (next : Command V)
      → IsSound (run seeded commands) × (step (run seeded commands) next ≢ panicked)
  run_never_panics commands next =
      let sound = run-IsSound seeded commands seeded-IsSound in
      (sound, (step-IsFine (run seeded commands) next sound).1)
