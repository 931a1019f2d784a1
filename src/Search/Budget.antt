-- ===== src/Search/Budget.antt =====
-- `apply_budget` keeps the first hits, as many as the budget allows, and always the first one.
use wkp.Base.{
  ℕ, ◌+◌, ◌≤◌, ◌<◌, ◌≡◌, refl, ap, subst, ◌⊎◌, inl, inr, some, List, [], ◌∷◌, ◌++◌, arith, ltb,
  Bool-cases,
}
use wkp.Search.{SearchHit, keep_within, apply_budget}

module _ {ℓ} {A : Type ℓ} where
  abbrev pub spent_on : List (SearchHit A) → ℕ
  spent_on [] = 0
  spent_on (hit ∷ hits) = hit.tokens + spent_on hits

  -- The hits that were dropped begin with one that is over the budget.
  abbrev pub IsOver : ℕ → ℕ → List (SearchHit A) → Type 0
  IsOver budget spent [] = Unit
  IsOver budget spent (hit ∷ hits) = budget < spent + hit.tokens

  pub record Kept (budget spent : ℕ) (hits kept : List (SearchHit A)) : Type ℓ where
    pub dropped : List (SearchHit A)
    pub split : hits ≡ kept ++ dropped
    pub within : (kept ≡ []) ⊎ (spent + spent_on kept ≤ budget)
    pub full : IsOver budget (spent + spent_on kept) dropped

  spent_on-within :
      (budget spent : ℕ) (hit : SearchHit A) (kept : List (SearchHit A))
      → spent + hit.tokens ≤ budget
      → (kept ≡ []) ⊎ (spent + hit.tokens + spent_on kept ≤ budget)
      → spent + (hit.tokens + spent_on kept) ≤ budget
  spent_on-within budget spent hit [] fits h = omega arith
  spent_on-within budget spent hit (k ∷ kept) fits (inl h) = cc
  spent_on-within budget spent hit (k ∷ kept) fits (inr h) = omega arith

  one_more :
      (budget spent : ℕ) (hit : SearchHit A) (hits kept : List (SearchHit A))
      → spent + hit.tokens ≤ budget
      → Kept budget (spent + hit.tokens) hits kept
      → Kept budget spent (hit ∷ hits) (hit ∷ kept)
  one_more budget spent hit hits kept fits r =
      let total : spent + hit.tokens + spent_on kept ≡ spent + (hit.tokens + spent_on kept) =
        omega arith in
      record {
        dropped = r.dropped;
        split = ap (λ l. hit ∷ l) r.split;
        within = inr (spent_on-within budget spent hit kept fits r.within);
        full = subst (λ s. IsOver budget s r.dropped) total r.full;
      }

  keep_within-Kept :
      (budget spent : ℕ) (hits : List (SearchHit A))
      → Kept budget spent hits (keep_within budget spent hits)
  unfolding keep_within
  keep_within-Kept budget spent [] = record {
    dropped = [];
    split = refl;
    within = inl refl;
    full = tt;
  }
  keep_within-Kept budget spent (hit ∷ hits) = elim (Bool-cases (ltb budget (spent + hit.tokens))) [
    | inl over ↦ rw over (record {
      dropped = hit ∷ hits;
      split = refl;
      within = inl refl;
      full = ground (arith, over);
    })
    | inr fits ↦ rw fits (
        one_more budget spent hit hits _ (ground (arith, fits))
          (keep_within-Kept budget (spent + hit.tokens) hits))
  ]

  -- With a budget, the hits that are kept are the first ones: always the first hit, if there is one;
  -- the others only as long as all of them are within the budget; and the first hit that is dropped
  -- would have gone over it.
  pub apply_budget_lem :
      (budget : ℕ) (hit : SearchHit A) (hits : List (SearchHit A))
      → (kept : List (SearchHit A)) × (apply_budget (hit ∷ hits) (some budget) ≡ hit ∷ kept)
        × Kept budget hit.tokens hits kept
  unfolding apply_budget
  apply_budget_lem budget hit hits =
      (keep_within budget hit.tokens hits, refl, keep_within-Kept budget hit.tokens hits)
