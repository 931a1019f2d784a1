-- ===== src/Search.antt =====
-- crates/wkp-core/src/index/search.rs: the token budget of a search, and the quoting of a query.
-- The queries of the database itself are not modelled.
pub mod Budget
pub mod Quotes
use wkp.Base.{
  ℕ, zero, suc, ◌+◌, ◌-◌, ◌*◌, ◌/◌, ◌%◌, ◌^◌, ◌≤◌, ◌<◌, min, max, String, ◌≡◌, refl, sym, ap, ap₂,
  ◌∙◌, subst, ◌≡⟨◌⟩◌, ◌∎, ◌≢◌, ◌↔◌, ◌⊎◌, inl, inr, Bool, true, false, not, ◌&&◌, ◌||◌, Option, none,
  some, List, [], ◌∷◌, ◌++◌, map, append-nil, append_assoc, arith, ltb, leb, ◌==◌, if◌then◌else◌,
  ==_iff, Bool-cases, Option-cases, &&-elim, length, take, drop, flatten, filter, take_while, all,
  any, is_empty, length-append, take-append, drop-append, filter_map, or_else, is_some, map_option,
  ◌>>=◌, all-append, drop_past, push_some,
}
use wkp.Str.{Text, codes, is_whitespace, split_by, join}

-- `SearchHit`, with what else it holds as a parameter
pub record SearchHit {ℓ} (A : Type ℓ) : Type ℓ where
  pub tokens : ℕ
  pub item : A

-- The loop of `apply_budget` after the first hit; no sum reaches 2^64.
unfoldable pub keep_within {ℓ} : {A : Type ℓ} → ℕ → ℕ → List (SearchHit A) → List (SearchHit A)
keep_within budget spent [] = []
keep_within budget spent (hit ∷ hits) =
    let rest = keep_within budget (spent + hit.tokens) hits in
    if ltb budget (spent + hit.tokens) then [] else hit ∷ rest

unfoldable pub apply_budget {ℓ} : {A : Type ℓ} → List (SearchHit A) → Option ℕ → List (SearchHit A)
unfolding keep_within
apply_budget hits none = hits
apply_budget [] (some budget) = []
apply_budget (hit ∷ hits) (some budget) = hit ∷ keep_within budget hit.tokens hits

abbrev pub doubled : Text → Text
doubled [] = []
doubled (c ∷ cs) = if c == b'"' then b'"' ∷ b'"' ∷ doubled cs else c ∷ doubled cs

abbrev pub quoted_word : Text → Text
quoted_word word = b'"' ∷ (doubled word ++ codes "\"*")

-- `split_whitespace`
abbrev pub words : Text → List Text
words t = filter (λ word. not (is_empty word)) (split_by is_whitespace t)

unfoldable pub sanitize_fts_query_joined : Text → Text → Text
sanitize_fts_query_joined raw joiner =
    join joiner (map quoted_word (words (filter (λ c. not (c == 0)) raw)))
