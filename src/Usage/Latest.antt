-- ===== src/Usage/Latest.antt =====
-- What a query of the usage counters reports: all events of the window, and its latest value.
use wkp.Base.{
  ℕ, ◌+◌, ◌≤◌, String, ◌≡◌, refl, sym, ap, ◌∙◌, subst, ◌⊎◌, inl, inr, Bool, true, ◌&&◌, Option,
  none, some, List, [], ◌∷◌, arith, ltb, leb, Bool-cases,
}
use wkp.Usage.Store.{SlotAgg, Float}
use wkp.Base.Maps.{lookup}
use wkp.Registry.Defs.{string_equality}
use wkp.Usage.Store.{all_tiers}
use wkp.Usage.Record.{Metric, Db}
use wkp.Usage.Window.{IsPicked, pick_tier_idx-IsPicked, in_window, recorded, entries_at-filter}
use wkp.Usage.Query.{
  pick_tier_idx, entries_at, into_summary, query_window, default_acc, WindowAcc, absorb,
  absorb_each,
}

module _ {ℓ} {V : Type ℓ} where
  abbrev pub events : List (ℕ × SlotAgg V) → ℕ
  events [] = 0
  events ((bucket_start, agg) ∷ entries) = agg.n + events entries

  pub data HasEntry (at : ℕ) (v : V) : List (ℕ × SlotAgg V) → Type ℓ where
    first :
        {agg : SlotAgg V} {entries : List (ℕ × SlotAgg V)}
        → agg.last ≡ v
        → HasEntry at v ((at, agg) ∷ entries)
    later :
        {entry : ℕ × SlotAgg V} {entries : List (ℕ × SlotAgg V)}
        → HasEntry at v entries
        → HasEntry at v (entry ∷ entries)

  abbrev pub all_up_to : ℕ → List (ℕ × SlotAgg V) → Bool
  all_up_to at [] = true
  all_up_to at ((bucket_start, agg) ∷ entries) = leb bucket_start at && all_up_to at entries

  -- No entry and no value, or the last value of an entry of the latest bucket.
  pub data IsLatest (entries : List (ℕ × SlotAgg V)) (v : V) : Option ℕ → Type ℓ where
    no_entry : entries ≡ [] → IsLatest entries v none
    latest :
        {at : ℕ}
        → HasEntry at v entries
        → all_up_to at entries ≡ true
        → IsLatest entries v (some at)

  module _ (float : Float V) (f_zero : V) where
    absorb_each-n :
        (acc : WindowAcc V) (entries : List (ℕ × SlotAgg V))
        → (absorb_each float f_zero acc entries).n ≡ acc.n + events entries
    unfolding absorb
    absorb_each-n acc [] = omega arith
    absorb_each-n acc ((b, agg) ∷ entries) =
        omega (arith, absorb_each-n (absorb float f_zero acc b agg) entries)

    -- What the absorbed entries do to a value that was there before.
    record After (acc : WindowAcc V) (at : ℕ) (entries : List (ℕ × SlotAgg V)) : Type ℓ where
      t : ℕ
      is_at : (absorb_each float f_zero acc entries).last_at ≡ some t
      from : at ≤ t
      covers : all_up_to t entries ≡ true
      source :
          ((t ≡ at) × ((absorb_each float f_zero acc entries).last ≡ acc.last))
          ⊎ HasEntry t (absorb_each float f_zero acc entries).last entries

    after-step :
        (acc : WindowAcc V) (at b : ℕ) (agg : SlotAgg V) (entries : List (ℕ × SlotAgg V))
        → acc.last_at ≡ some at
        → (((m : ℕ)
            → (absorb float f_zero acc b agg).last_at ≡ some m
            → After (absorb float f_zero acc b agg) m entries))
        → After acc at ((b, agg) ∷ entries)
    unfolding absorb
    after-step acc at b agg entries h rest = elim (Bool-cases (ltb at b)) [
      | inl newer ↦
          let r = rest b (rw (h, newer) refl) in
          record {
            t = r.t;
            is_at = r.is_at;
            from = ground (arith, r.from, newer);
            covers = ground (arith, r.from, r.covers);
            source = elim r.source [
              | inl (same, kept) ↦ inr (
                  subst
                    (λ t.
                      HasEntry t (absorb_each float f_zero acc ((b, agg) ∷ entries)).last
                        ((b, agg) ∷ entries))
                    (sym same) (first (sym (kept ∙ rw (h, newer) refl))))
              | inr found ↦ inr (later found)
            ];
          }
      | inr older ↦
          let r = rest at (rw (h, older) refl) in
          record {
            t = r.t;
            is_at = r.is_at;
            from = r.from;
            covers = ground (arith, r.from, r.covers, older);
            source = elim r.source [
              | inl (same, kept) ↦ inl (same, kept ∙ rw (h, older) refl)
              | inr found ↦ inr (later found)
            ];
          }
    ]

    after :
        (entries : List (ℕ × SlotAgg V)) (acc : WindowAcc V) (at : ℕ)
        → acc.last_at ≡ some at
        → After acc at entries
    after [] acc at h = record {
      t = at;
      is_at = h;
      from = omega arith;
      covers = refl;
      source = inl (refl, refl);
    }
    after ((b, agg) ∷ entries) acc at h =
        after-step acc at b agg entries h (λ m e. after entries (absorb float f_zero acc b agg) m e)

    -- From nothing: the first entry gives the first value.
    absorbed-IsLatest :
        (entries : List (ℕ × SlotAgg V))
        → IsLatest entries
            (absorb_each float f_zero (default_acc float f_zero) entries).last
            (absorb_each float f_zero (default_acc float f_zero) entries).last_at
    unfolding absorb
    absorbed-IsLatest [] = no_entry refl
    absorbed-IsLatest ((b, agg) ∷ entries) =
        let start = default_acc float f_zero in
        let r = after entries (absorb float f_zero start b agg) b refl in
        let result = absorb_each float f_zero (absorb float f_zero start b agg) entries in
        subst (IsLatest ((b, agg) ∷ entries) result.last) (sym r.is_at) (
          latest
            (elim r.source [
              | inl (same, kept) ↦
                  subst (λ t. HasEntry t result.last ((b, agg) ∷ entries)) (sym same)
                    (first (sym kept))
              | inr found ↦ later found
            ])
            (ground (arith, r.from, r.covers)))

    -- For a metric that is on file, a query takes the first tier whose windows together cover its
    -- own, or else the last tier. Of the rows of that tier and the open windows of the finer ones
    -- it takes those that begin within the last `window` seconds: it reports all their events, and
    -- as its last value that of an entry of the latest bucket, or none when there is no entry.
    pub query_window_lem :
        (name : String) (window now : ℕ) (db : Db V) (m : Metric V)
        → lookup name db ≡ some m
        → (idx : ℕ) × IsPicked all_tiers window idx
          × ((query_window float f_zero name window now db).n
              ≡ events (in_window now window (recorded idx m.rings [])))
          × IsLatest
              (in_window now window (recorded idx m.rings []))
              (query_window float f_zero name window now db).last
              (query_window float f_zero name window now db).last_at
    unfolding query_window into_summary
    query_window_lem name window now db m h =
        let idx = pick_tier_idx all_tiers window in
        let entries = entries_at float f_zero idx now window m.rings [] in
        let same = entries_at-filter float f_zero idx now window m.rings [] in
        (
          idx,
          pick_tier_idx-IsPicked _ _ window,
          rw h (absorb_each-n (default_acc float f_zero) entries ∙ (omega arith) ∙ ap events same),
          rw h (
              subst
                (λ l.
                  IsLatest l (absorb_each float f_zero (default_acc float f_zero) entries).last
                    (absorb_each float f_zero (default_acc float f_zero) entries).last_at)
                same (absorbed-IsLatest entries)),
        )
